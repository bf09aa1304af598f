-- ===== src/Record/Writes.antt =====
-- How often sw/fw/src/systems/record.rs writes to flash.
use powersupply.Base.{
  ℕ, ◌+◌, ◌≤◌, ◌≡◌, refl, Bool, true, false, List, [], ◌∷◌, arith, leb, inl, inr, Bool-cases,
  Option-cases, unwrap_option, Result, ok, err, returns, unwrap, ◌>>◌, Ensures,
}
use powersupply.Base.Time.{Time}
use powersupply.Storage.{Slot}
use powersupply.Record.{
  Data, Progress, done, waits, Pc, receiving, notified, sleeping, storing, Record, sync_period,
  sync_step,
}
use powersupply.Record.Interleavings.{
  System, Reach, boot, log, publish, sync, Reach-Inv, Spaced, Past, Past-later, taken, written,
}

-- Of any three times in a row, the latest first, the first and the last are not closer than the
-- period.
abbrev pub ThirdSpaced : ℕ → List ℕ → Type 0
ThirdSpaced period [] = Unit
ThirdSpaced period (w ∷ []) = Unit
ThirdSpaced period (w ∷ v ∷ []) = Unit
ThirdSpaced period (w ∷ v ∷ u ∷ us) = (u + period ≤ w) × ThirdSpaced period (v ∷ u ∷ us)

-- Each write comes after its counters were taken, and before any are taken again.
abbrev Follows : List ℕ → List ℕ → Type 0
Follows [] [] = Unit
Follows [] (w ∷ ws) = ⊥
Follows (t ∷ ts) [] = ⊥
Follows (t ∷ ts) (w ∷ ws) = (t ≤ w) × Past ws t × Follows ts ws

Follows-ThirdSpaced :
    (period : ℕ) (ts ws : List ℕ) → Spaced period ts → Follows ts ws → ThirdSpaced period ws
Follows-ThirdSpaced period [] [] s f = tt
Follows-ThirdSpaced period [] (w ∷ ws) s f = absurd f
Follows-ThirdSpaced period (t ∷ ts) [] s f = absurd f
Follows-ThirdSpaced period (t ∷ ts) (w ∷ []) s f = tt
Follows-ThirdSpaced period (t ∷ ts) (w ∷ v ∷ []) s f = tt
Follows-ThirdSpaced period (t ∷ []) (w ∷ v ∷ u ∷ us) s (a, b, c) = absurd c
Follows-ThirdSpaced period (t ∷ t' ∷ ts) (w ∷ v ∷ u ∷ us) (d, s) (a, b, (a', b', c)) =
    (omega arith, Follows-ThirdSpaced period (t' ∷ ts) (v ∷ u ∷ us) s (a', b', c))

abbrev is_storing : Pc → Bool
is_storing (storing _) = true
is_storing _ = false

abbrev is_sleeping : Pc → Bool
is_sleeping (sleeping _) = true
is_sleeping _ = false

-- When counters are taken that are not written yet, the writes follow the takings before it.
abbrev Paired : Bool → List ℕ → List ℕ → Type 0
Paired false ts ws = Follows ts ws
Paired true [] ws = ⊥
Paired true (t ∷ ts) ws = Past ws t × Follows ts ws

module _ (time : Time) (slot : Slot Data) where
  abbrev Next : Pc → Progress (Pc × Record time slot) → Type 0
  Next pc waits = Unit
  Next pc (done (pc', r)) = is_storing pc' ≡ is_sleeping pc

  sync_step-Next :
      (now : ℕ) (pc : Pc) (r : Record time slot) → Ensures (sync_step time slot now pc r) (Next pc)
  unfolding sync_step
  sync_step-Next now receiving r = elim (Bool-cases r.queued) [
    | inl q ↦ rw q refl
    | inr q ↦ rw q tt
  ]
  sync_step-Next now notified r = elim (Option-cases r.sync_at) [
    | inl e ↦ rw (e, unwrap_option) tt
    | inr (a, e) ↦ rw (e, unwrap_option) refl
  ]
  sync_step-Next now (sleeping u) r = elim (Bool-cases (leb u now)) [
    | inl due ↦ rw due refl
    | inr early ↦ rw early tt
  ]
  sync_step-Next now (storing d) r = after (slot.save d r.storage).0
    where
      after :
          (res : Result (Unit {0}) slot.SlotError)
          → Ensures
              (unwrap res
                >> returns (done (receiving, record r { storage = (slot.save d r.storage).1 })))
              (Next (storing d))
      after (ok _) = refl
      after (err x) = tt

  abbrev Told : System time slot → Type 0
  Told s = Paired (is_storing s.pc) s.takes s.writes × Past s.writes s.clock × Past s.takes s.clock

  sync-Told :
      (pc pc' : Pc) (now clock : ℕ) (ts ws : List ℕ)
      → Paired (is_storing pc) ts ws
      → Past ws clock
      → Past ts clock
      → clock ≤ now
      → is_storing pc' ≡ is_sleeping pc
      → Paired (is_storing pc') (taken now pc ts) (written now pc ws)
        × Past (written now pc ws) now
        × Past (taken now pc ts) now
  sync-Told receiving pc' now c ts ws p a b le e =
      rw e (p, Past-later ws c now a le, Past-later ts c now b le)
  sync-Told notified pc' now c ts ws p a b le e =
      rw e (p, Past-later ws c now a le, Past-later ts c now b le)
  sync-Told (sleeping u) pc' now c ts ws p a b le e =
      rw e ((Past-later ws c now a le, p), Past-later ws c now a le, omega arith)
  sync-Told (storing d) pc' now c [] ws p a b le e = absurd p
  sync-Told (storing d) pc' now c (t ∷ ts) ws (q, f) a b le e =
      rw e ((omega arith, q, f), omega arith, omega arith)

  Reach-Told : {s : System time slot} → Reach time slot s → Told s
  Reach-Told (boot st e) = (tt, tt, tt)
  Reach-Told (log {s} now secs p le e) =
      let (q, a, b) = Reach-Told p in
      (q, Past-later s.writes s.clock now a le, Past-later s.takes s.clock now b le)
  Reach-Told (publish p) = Reach-Told p
  Reach-Told (sync {s} {pc} {r} now p le e) =
      let (q, a, b) = Reach-Told p in
      sync-Told s.pc pc now s.clock s.takes s.writes q a b le
        (rw e at (sync_step-Next now s.pc s.rec))

  Paired-ThirdSpaced :
      (period : ℕ) (b : Bool) (ts ws : List ℕ)
      → Spaced period ts
      → Paired b ts ws
      → ThirdSpaced period ws
  Paired-ThirdSpaced period false ts ws s p = Follows-ThirdSpaced period ts ws s p
  Paired-ThirdSpaced period true [] ws s p = absurd p
  Paired-ThirdSpaced period true (t ∷ ts) ws (d, s) (q, f) = Follows-ThirdSpaced period ts ws s f

  -- In every reachable state: no two times at which the task took the counters, to write them to
  -- flash, are closer together than the sync period; and of any three writes to flash in a row, the
  -- first and the last are not.
  pub writes-Spaced :
      {s : System time slot}
      → Reach time slot s
      → Spaced (sync_period time slot) s.takes × ThirdSpaced (sync_period time slot) s.writes
  writes-Spaced {s} r =
      let spaced = (Reach-Inv time slot r).spaced in
      (
        spaced,
        Paired-ThirdSpaced (sync_period time slot) (is_storing s.pc) s.takes s.writes spaced
            (Reach-Told r).0,
      )
