-- ===== src/Watchdog/Stalled.antt =====
-- What the tickets of sw/fw/src/systems/watchdog.rs are for: when the holder of one stops feeding,
-- the hardware watchdog is left to expire.
use powersupply.Base.{
  ℕ, suc, ◌+◌, ◌*◌, ◌≤◌, ◌<◌, ◌≡◌, refl, Bool, true, false, ◌||◌, List, [], ◌∷◌, arith, inl, inr,
  Bool-cases, leb, if◌then◌else◌, Returns, Returns-bind, Returns-mono,
}
use powersupply.Watchdog.{Inner, empty_mask, feed, run, watchdog_duration_secs}
use powersupply.Watchdog.Rounds.{
  contains, covers, covers_get, AllBelow, Marks, spec_run, Follows, feed-Follows, run-Follows,
}
use powersupply.Watchdog.Tickets.{Reach, Reach-IsMarked, empty_mask-Marks}
use powersupply.Watchdog.Timing.{survives}

-- How often the hardware watchdog was fed.
abbrev pub count_true : List Bool → ℕ
count_true [] = 0
count_true (b ∷ bs) = if b then suc (count_true bs) else count_true bs

not-covers : (n : ℕ) (es : List ℕ) (j : ℕ) → j < n → contains es j ≡ false → covers n es ≡ false
not-covers n es j lt e = elim (Bool-cases (covers n es)) [
  | inl c ↦ cc (covers_get n es j c lt)
  | inr c ↦ c
]

-- The round waits for the ticket.
spec_run-none :
    (n : ℕ) (es h : List ℕ) (j : ℕ)
    → j < n
    → contains h j ≡ false
    → contains es j ≡ false
    → count_true (spec_run n es h).0 ≡ 0
spec_run-none n [] h j lt a b = refl
spec_run-none n (i ∷ es) h j lt a b =
    let c : contains (i ∷ h) j ≡ false = ground arith in
    rw (not-covers n (i ∷ h) j lt c) (spec_run-none n es (i ∷ h) j lt c (ground arith))

-- The round that has begun may be completed, but no other one.
spec_run-once :
    (n : ℕ) (es h : List ℕ) (j : ℕ)
    → j < n
    → contains es j ≡ false
    → count_true (spec_run n es h).0 ≤ 1
spec_run-once n [] h j lt b = omega arith
spec_run-once n (i ∷ es) h j lt b = elim (Bool-cases (covers n (i ∷ h))) [
  | inl c ↦ rw c (omega (arith, spec_run-none n es [] j lt refl (ground arith)))
  | inr c ↦ rw c (spec_run-once n es (i ∷ h) j lt (ground arith))
]

-- From every reachable state: as long as one issued ticket is not fed, the feeds by the other
-- issued tickets, in any number and order, do not panic, and feed the hardware watchdog at most
-- once, which is when they complete the round that has begun.
pub run-stalled :
    (es : List ℕ) (j : ℕ) {s : Inner}
    → Reach s
    → j < s.count
    → AllBelow s.count es
    → contains es j ≡ false
    → Returns (run es s) (λ (flags, _). count_true flags ≤ 1)
run-stalled es j {s} r lt b out =
    let (h, m) = Reach-IsMarked r in
    Returns-mono (run es s) (Follows s.count (spec_run s.count es h)) _
      (λ a f. rw f.0 (spec_run-once s.count es h j lt out)) (run-Follows s.count es s h refl b m)

abbrev pub tickets_of : List (ℕ × ℕ) → List ℕ
tickets_of [] = []
tickets_of ((_, i) ∷ es) = i ∷ tickets_of es

-- One of the feeds comes at this time or after it.
abbrev pub any_from : ℕ → List (ℕ × ℕ) → Bool
any_from limit [] = false
any_from limit ((t, _) ∷ es) = leb limit t || any_from limit es

module _ (second : ℕ) where
  -- What is left waits for the ticket.
  abbrev Expires : ℕ → List (ℕ × ℕ) → Bool → Type 0
  Expires at es b = any_from (at + watchdog_duration_secs * second) es ≡ true → b ≡ false

  survives-Expires :
      (n : ℕ) (es : List (ℕ × ℕ)) (s : Inner) (h : List ℕ) (at j : ℕ)
      → s.count ≡ n
      → Marks s h
      → j < n
      → contains h j ≡ false
      → AllBelow n (tickets_of es)
      → contains (tickets_of es) j ≡ false
      → Returns (survives second es at s) (Expires at es)
  unfolding survives
  survives-Expires n [] s h at j e m lt a b c = λ l. cc
  survives-Expires n ((t, i) ∷ es) s h at j e m lt a b c =
      let waits : contains (i ∷ h) j ≡ false = ground arith in
      let none_yet = not-covers n (i ∷ h) j lt waits in
      Returns-bind (feed i s) _ (Follows n (false, i ∷ h)) _
        (rw none_yet at (feed-Follows n i s h e b.0 m))
        λ r f. rw f.0 (
          Returns-bind (survives second es at r.1) _ (Expires at es) _
            (survives-Expires n es r.1 (i ∷ h) at j f.2 f.1 lt waits b.1 (ground arith))
            (λ rest q l. ground arith))

  -- Just after the hardware watchdog was fed at `at`, with at most sixteen tickets issued: when one
  -- of them is not fed any more, then whatever the others feed, without a panic, the hardware
  -- watchdog has expired by the first of their feeds that comes 30 seconds after `at` or later.
  pub survives-stalled :
      (es : List (ℕ × ℕ)) (s : Inner) (at j : ℕ)
      → s.mask ≡ empty_mask
      → s.count ≤ 16
      → j < s.count
      → AllBelow s.count (tickets_of es)
      → contains (tickets_of es) j ≡ false
      → any_from (at + watchdog_duration_secs * second) es ≡ true
      → Returns (survives second es at s) (λ b. b ≡ false)
  survives-stalled es s at j e few lt b c l =
      Returns-mono (survives second es at s) (Expires at es) _ (λ r q. q l)
        (survives-Expires s.count es s [] at j refl (empty_mask-Marks s e few) lt refl b c)
