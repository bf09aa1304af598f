-- ===== src/Watchdog/Tickets.antt =====
-- What the tickets promise the tasks: when the hardware watchdog is fed, and that no feed panics.
use mathlib.Core.List.{append-nil}
use native.Mathlib.Decide.{dec_lt}
use powersupply.Base.{
  ℕ, zero, suc, ◌+◌, ◌≤◌, ◌<◌, ◌≡◌, refl, ap, ◌∙◌, Bool, true, false, List, [], arith, get_or,
  returns, panics, Returns, Returns-bind, Returns-mono,
}
use powersupply.Watchdog.{Inner, empty_mask, init, feed, ticket, run}
use powersupply.Watchdog.Rounds.{
  covers, any_true, AllBelow, Marks, spec_feed, spec_run, Follows, feed-Follows, run-Follows,
  spec_run-covers, spec_run-live, empty_mask-bits,
}

pub covers-nil : (n : ℕ) → 0 < n → covers n [] ≡ false
covers-nil zero h = elim h [ ]
covers-nil (suc n) h = refl

pub empty_mask-Marks : (s : Inner) → s.mask ≡ empty_mask → s.count ≤ 16 → Marks s []
empty_mask-Marks s e few = record {
  full = rw e refl;
  few = few;
  bits = λ j. ap (λ m. get_or m j false) e ∙ empty_mask-bits j;
}

-- Just after a round has ended (the mask is empty, as at boot), with one to sixteen tickets issued:
-- any sequence of feeds by issued tickets runs without a panic, and feeds the hardware watchdog
-- exactly when every issued ticket is among them.
pub fed_iff_covers :
    (es : List ℕ) (s : Inner)
    → s.mask ≡ empty_mask
    → 0 < s.count
    → s.count ≤ 16
    → AllBelow s.count es
    → Returns (run es s) (λ (flags, _). any_true flags ≡ covers s.count es)
fed_iff_covers es s e p few b =
    Returns-mono (run es s) (Follows s.count (spec_run s.count es [])) _
      (λ r f.
        ap any_true f.0
        ∙ spec_run-covers s.count es [] (covers-nil s.count p)
        ∙ ap (covers s.count) (append-nil es))
      (run-Follows s.count es s [] refl b (empty_mask-Marks s e few))

-- Issuing a ticket feeds it at once: the next index, while fewer than sixteen are issued.
ticket-Follows :
    (s : Inner) (h : List ℕ)
    → Marks s h
    → s.count < 16
    → Returns (ticket s) (λ (i, f, t).
      (i ≡ s.count) × Follows (s.count + 1) (spec_feed (s.count + 1) s.count h) (f, t))
unfolding ticket
ticket-Follows s h m lt =
    Returns-bind (feed s.count more) _ (Follows (s.count + 1) (spec_feed (s.count + 1) s.count h)) _
      (feed-Follows (s.count + 1) s.count more h refl (omega arith)
        (record { full = m.full; few = omega arith; bits = m.bits }))
      (λ r f. (refl, f))
  where
    more : Inner
    more = record s { count = s.count + 1 }

ticket-panics : (s : Inner) (h : List ℕ) → Marks s h → s.count ≡ 16 → ticket s ≡ panics
unfolding ticket feed
ticket-panics s h m e = ground arith

-- The states that the watchdog can be in: tickets are issued, and issued tickets feed.
pub data Reach : Inner → Type 0 where
  boot : Reach init
  issue : {s t : Inner} {i : ℕ} {f : Bool} → Reach s → ticket s ≡ returns (i, f, t) → Reach t
  fed :
      {s t : Inner} {i : ℕ} {f : Bool} → Reach s → i < s.count → feed i s ≡ returns (f, t) → Reach t

abbrev pub IsMarked : Inner → Type 0
IsMarked s = (h : List ℕ) × Marks s h

feed-IsMarked :
    {s t : Inner} {i : ℕ} {f : Bool}
    → IsMarked s
    → i < s.count
    → feed i s ≡ returns (f, t)
    → IsMarked t
feed-IsMarked {s} {i} (h, m) lt e = (_, (rw e at (feed-Follows s.count i s h refl lt m)).1)

ticket-IsMarked :
    {s t : Inner} {i : ℕ} {f : Bool} → IsMarked s → ticket s ≡ returns (i, f, t) → IsMarked t
ticket-IsMarked {s} {t} (h, m) e = elim (dec_lt s.count 16) [
  | yes lt ↦ let p = rw e at (ticket-Follows s h m lt) in (_, p.1.1)
  | no ge ↦ cc (ticket-panics s h m (omega (arith, m.few)))
]

pub Reach-IsMarked : {s : Inner} → Reach s → IsMarked s
unfolding init
Reach-IsMarked boot = ([], empty_mask-Marks init refl (omega arith))
Reach-IsMarked (issue r e) = ticket-IsMarked (Reach-IsMarked r) e
Reach-IsMarked (fed r lt e) = feed-IsMarked (Reach-IsMarked r) lt e

-- In every reachable state at most sixteen tickets are issued. While fewer are, `ticket` gives
-- out the next index and raises the count by one; with sixteen issued it panics.
pub Reach-ticket :
    {s : Inner}
    → Reach s
    → (s.count < 16 → Returns (ticket s) (λ (i, _, t). (i ≡ s.count) × (t.count ≡ s.count + 1)))
      × (s.count ≡ 16 → ticket s ≡ panics)
      × (s.count ≤ 16)
Reach-ticket {s} r =
    let (h, m) = Reach-IsMarked r in
    (
      (λ lt. Returns-mono (ticket s) _ _ (λ a p. (p.0, p.1.2)) (ticket-Follows s h m lt)),
      ticket-panics s h m,
      m.few,
    )

-- From every reachable state, whatever feeds the current round has seen: a sequence of feeds by
-- issued tickets in which every issued ticket occurs (there is at least one) runs without a panic,
-- and feeds the hardware watchdog at least once.
pub covers-fed :
    (es : List ℕ) {s : Inner}
    → Reach s
    → 0 < s.count
    → AllBelow s.count es
    → covers s.count es ≡ true
    → Returns (run es s) (λ (flags, _). any_true flags ≡ true)
covers-fed es {s} r p b c =
    let (h, m) = Reach-IsMarked r in
    Returns-mono (run es s) (Follows s.count (spec_run s.count es h)) _
      (λ a f. ap any_true f.0 ∙ spec_run-live s.count es h p c)
      (run-Follows s.count es s h refl b m)

-- A feed by an issued ticket never panics, and issues no ticket.
pub feed-count :
    (i : ℕ) {s : Inner} → Reach s → i < s.count → Returns (feed i s) (λ (_, t). t.count ≡ s.count)
feed-count i {s} r lt =
    let (h, m) = Reach-IsMarked r in
    Returns-mono (feed i s) _ _ (λ a f. f.2) (feed-Follows s.count i s h refl lt m)

-- A ticket that is issued has the next index.
pub ticket-count :
    {s t : Inner} {i : ℕ} {f : Bool}
    → Reach s
    → ticket s ≡ returns (i, f, t)
    → (i ≡ s.count) × (t.count ≡ s.count + 1)
ticket-count {s} r e = elim (dec_lt s.count 16) [
  | yes lt ↦ rw e at ((Reach-ticket r).0 lt)
  | no ge ↦ cc ((Reach-ticket r).1 (omega (arith, (Reach-ticket r).2)))
]
