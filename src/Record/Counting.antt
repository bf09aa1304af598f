-- ===== src/Record/Counting.antt =====
-- sw/fw/src/systems/record.rs: the counters count every event since boot.
use powersupply.Base.{ℕ, suc, ◌+◌, ◌%◌, ◌^◌, ◌<◌, ◌≡◌, List, [], ◌∷◌, arith, length}
use powersupply.Base.Time.{Time}
use powersupply.Storage.{Slot}
use powersupply.Record.{Data, publish_immediate}
use powersupply.Record.Protocol.{logged, log_overcurrent_lem, sync_step_lem}
use powersupply.Record.Interleavings.{System, Reach, boot, log, publish, sync, Reach-Inv}

abbrev pub total : List ℕ → ℕ
total [] = 0
total (n ∷ ns) = n + total ns

module _ (time : Time) (slot : Slot Data) where
  -- The counters that were loaded at boot, and the durations logged since, the last one first.
  abbrev pub loaded : {s : System time slot} → Reach time slot s → Data
  loaded (boot st {r} e) = r.counters
  loaded (log now secs p le e) = loaded p
  loaded (publish p) = loaded p
  loaded (sync now p le e) = loaded p

  abbrev pub durations : {s : System time slot} → Reach time slot s → List ℕ
  durations (boot st e) = []
  durations (log now secs p le e) = secs ∷ durations p
  durations (publish p) = durations p
  durations (sync now p le e) = durations p

  -- The counters after `n` events that lasted `t` seconds in all.
  abbrev Counts : Data → Data → ℕ → ℕ → Type 0
  Counts d d0 n t =
      (d.overcurrent_count ≡ (d0.overcurrent_count + n) % 2 ^ 64)
      × (d.overcurrent_secs ≡ (d0.overcurrent_secs + t) % 2 ^ 64)

  Counts-logged :
      (d d' d0 : Data) (secs n t : ℕ)
      → Counts d d0 n t
      → d' ≡ logged time slot secs d
      → Counts d' d0 (suc n) (secs + t)
  Counts-logged d d' d0 secs n t c e = rw e (omega arith, omega arith)

  -- In every reachable state the counters are those loaded at boot (each a u64) plus one, and the
  -- seconds, for every event logged since, modulo 2 ^ 64.
  pub Reach-Counts :
      {s : System time slot} (p : Reach time slot s)
      → (loaded p).overcurrent_count < 2 ^ 64
      → (loaded p).overcurrent_secs < 2 ^ 64
      → (s.rec.counters.overcurrent_count
          ≡ ((loaded p).overcurrent_count + length (durations p)) % 2 ^ 64)
        × (s.rec.counters.overcurrent_secs
            ≡ ((loaded p).overcurrent_secs + total (durations p)) % 2 ^ 64)
  unfolding publish_immediate
  Reach-Counts (boot st e) a b = (omega arith, omega arith)
  Reach-Counts (log {s} {r} now secs p le e) a b =
      Counts-logged s.rec.counters r.counters (loaded p) secs (length (durations p))
        (total (durations p)) (Reach-Counts p a b)
        (rw e at
          (log_overcurrent_lem time slot now secs s.pc s.rec (Reach-Inv time slot p).phase)).0
  Reach-Counts (publish p) a b = Reach-Counts p a b
  Reach-Counts (sync {s} now p le e) a b =
      let i = Reach-Inv time slot p in
      let same = (rw e at (sync_step_lem time slot now s.pc s.rec i.phase i.flashed)).0 in
      rw same (Reach-Counts p a b)
