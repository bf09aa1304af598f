-- ===== src/Watchdog/Timing.antt =====
-- sw/fw/src/systems/watchdog.rs in time: the hardware watchdog, which expires when it is not fed for
-- `WATCHDOG_DURATION_SECS`, behind the tickets. A feed is its time in ticks, `second` of which
-- make a second, and its ticket.
use powersupply.Base.{
  ℕ, zero, suc, ◌+◌, ◌*◌, ◌≤◌, ◌<◌, ◌≡◌, refl, Bool, true, false, ◌&&◌, List, [], ◌∷◌, arith, ltb,
  inl, inr, Bool-cases, ◌==◌, if◌then◌else◌, Outcome, returns, ◌>>=◌, Returns, Returns-bind,
}
use powersupply.Watchdog.{Inner, empty_mask, feed, watchdog_duration_secs}
use powersupply.Watchdog.Rounds.{contains, covers, Marks, spec_feed, Follows, feed-Follows}
use powersupply.Watchdog.Tickets.{empty_mask-Marks, covers-nil}

module _ (second : ℕ) where
  -- Whether the hardware, fed last at `at`, is still running at each of the feeds.
  unfoldable pub survives : List (ℕ × ℕ) → ℕ → Inner → Outcome Bool
  survives [] at s = returns true
  survives ((t, i) ∷ es) at s = feed i s >>= λ (fed, s').
      survives es (if fed then t else at) s' >>= λ rest.
      returns (ltb t (at + watchdog_duration_secs * second) && rest)

  abbrev pub fed_now : ℕ → ℕ → (ℕ → ℕ) → ℕ → ℕ
  fed_now t i last j = if i == j then t else last j

  -- From the time `now` on, with the last feed of each ticket: at no feed has some ticket not been fed
  -- for that long.
  abbrev pub Punctual : ℕ → List (ℕ × ℕ) → ℕ → (ℕ → ℕ) → Type 0
  Punctual n [] now last = Unit
  Punctual n ((t, i) ∷ es) now last =
      (now ≤ t)
      × (i < n)
      × ((j : ℕ) → j < n → t < last j + watchdog_duration_secs * second)
      × Punctual n es t (fed_now t i last)

  -- A ticket that the round still waits for.
  missing : (n : ℕ) (h : List ℕ) → covers n h ≡ false → (j : ℕ) × (j < n) × (contains h j ≡ false)
  missing zero h c = cc
  missing (suc n) h c = elim (Bool-cases (contains h n)) [
    | inl d ↦ let (j, lt, e) = missing n h (ground arith) in (j, omega arith, e)
    | inr d ↦ (n, omega arith, d)
  ]

  -- Tickets that the round still waits for were fed last before the hardware was.
  abbrev Waits : ℕ → List ℕ → ℕ → ℕ → (ℕ → ℕ) → Type 0
  Waits n h at now last =
      (covers n h ≡ false)
      × (at ≤ now)
      × ((j : ℕ) → j < n → last j ≤ now)
      × ((j : ℕ) → j < n → contains h j ≡ false → last j ≤ at)

  in_time :
      (n : ℕ) (h : List ℕ) (at now t : ℕ) (last : ℕ → ℕ)
      → Waits n h at now last
      → ((j : ℕ) → j < n → t < last j + watchdog_duration_secs * second)
      → ltb t (at + watchdog_duration_secs * second) ≡ true
  in_time n h at now t last w p =
      let (j, lt, e) = missing n h w.0 in
      let a : last j ≤ at = w.3 j lt e in let b : t < last j + 30 * second = p j lt in ground arith

  fed_now-le : (t i j now : ℕ) (last : ℕ → ℕ) → now ≤ t → last j ≤ now → fed_now t i last j ≤ t
  fed_now-le t i j now last le l = ground arith

  Waits-feed :
      (n i t at now : ℕ) (h : List ℕ) (last : ℕ → ℕ)
      → 0 < n
      → Waits n h at now last
      → now ≤ t
      → Waits n (spec_feed n i h).1 (if (spec_feed n i h).0 then t else at) t (fed_now t i last)
  Waits-feed n i t at now h last p w le = elim (Bool-cases (covers n (i ∷ h))) [
    | inl c ↦ rw c (covers-nil n p, omega arith, recent, λ j lt _. recent j lt)
    | inr c ↦ rw c (c, omega (arith, w.1), recent, kept)
  ]
    where
      recent : (j : ℕ) → j < n → fed_now t i last j ≤ t
      recent j lt = fed_now-le t i j now last le (w.2 j lt)

      kept : (j : ℕ) → j < n → contains (i ∷ h) j ≡ false → fed_now t i last j ≤ at
      kept j lt e = let l : contains h j ≡ false → last j ≤ at = w.3 j lt in ground arith

  survives-Waits :
      (n : ℕ) (es : List (ℕ × ℕ)) (s : Inner) (h : List ℕ) (at now : ℕ) (last : ℕ → ℕ)
      → 0 < n
      → s.count ≡ n
      → Marks s h
      → Waits n h at now last
      → Punctual n es now last
      → Returns (survives es at s) (λ b. b ≡ true)
  unfolding survives
  survives-Waits n [] s h at now last p e m w q = refl
  survives-Waits n ((t, i) ∷ es) s h at now last p e m w (le, lt, due, q) =
      Returns-bind (feed i s) _ (Follows n (spec_feed n i h)) _ (feed-Follows n i s h e lt m) λ r f.
        Returns-bind (survives es (if r.0 then t else at) r.1) _ (λ b. b ≡ true) _
          (survives-Waits n es r.1 (spec_feed n i h).1 (if r.0 then t else at) t (fed_now t i last)
            p f.2 f.1 (rw f.0 (Waits-feed n i t at now h last p w le)) q)
          λ b g. let x = in_time n h at now t last w due in ground arith

  -- Just after the hardware watchdog was fed, with one to sixteen tickets issued, none of which was
  -- fed later than it: as long as every ticket is fed again, each time, in less than 30 seconds after
  -- its last feed, no feed panics, and the hardware, fed only when a round of tickets is complete,
  -- never waits for 30 seconds.
  pub survives-Punctual :
      (es : List (ℕ × ℕ)) (s : Inner) (at : ℕ) (last : ℕ → ℕ)
      → s.mask ≡ empty_mask
      → 0 < s.count
      → s.count ≤ 16
      → ((j : ℕ) → j < s.count → last j ≤ at)
      → Punctual s.count es at last
      → Returns (survives es at s) (λ b. b ≡ true)
  survives-Punctual es s at last e p few before q =
      survives-Waits s.count es s [] at at last p refl (empty_mask-Marks s e few)
        (covers-nil s.count p, omega arith, before, λ j lt _. before j lt) q
