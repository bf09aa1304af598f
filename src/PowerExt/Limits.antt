-- ===== src/PowerExt/Limits.antt =====
-- What `persist` of sw/fw/src/systems/power_ext.rs writes to the converter for given settings.
use powersupply.Base.{
  ℕ, ◌+◌, ◌*◌, ◌/◌, ◌^◌, ◌≤◌, ◌<◌, ◌≡◌, refl, [], ◌∷◌, arith, ok, Returns, Returns-bind,
}
use powersupply.Base.Time.{Time}
use powersupply.Config.Fields.{Settings}
use powersupply.Tps55289.{from_feedback, into_nanovolts, IoutLimit}
use powersupply.Tps55289.Reference.{from_feedback_bounds}
use powersupply.PowerExt.{
  Inner, write_vref, write_iout_limit, limit_value, PersistAnswers, persist, feedback,
}

-- For every u16 of milliamps the limit is the current in steps of 25 mA, cast to a u8: exact up to
-- 6399 mA, within the seven bits of the register exactly up to 3199 mA of these, and never more than
-- what was asked for; from 6400 mA on the cast wraps, and at 6400 mA itself the limit is 0.
pub limit_value_lem :
    (iout_ma : ℕ)
    → iout_ma < 2 ^ 16
    → (iout_ma ≤ 6_399 → limit_value iout_ma ≡ iout_ma / 25)
      × (iout_ma ≤ 3_199 → limit_value iout_ma < 2 ^ 7)
      × (3_200 ≤ iout_ma → iout_ma ≤ 6_399 → 2 ^ 7 ≤ limit_value iout_ma)
      × (limit_value iout_ma * 25 ≤ iout_ma)
      × (6_400 ≤ iout_ma → limit_value iout_ma * 25 + 6_400 ≤ iout_ma)
limit_value_lem iout_ma h =
    ((λ p. omega arith), (λ p. omega arith), (λ p q. omega arith), omega arith, (λ p. omega arith))

module _ (time : Time) (I2cError : Type 0) where
  -- With a bus that works, and for every voltage that is a u16, `persist` returns: it takes over
  -- the backoff, leaves the published state, and writes first the reference and then the limit,
  -- keeping the limit's enable bit as it was read. From 798 mV to 21312 mV the reference fits its
  -- eleven bits, and is the wanted feedback voltage, 56400 nV for each millivolt asked for, or below
  -- it by less than 1564500 nV.
  pub persist-writes :
      (settings : Settings) (p : PersistAnswers time I2cError) (limit : IoutLimit) (inner : Inner)
      → p.vref_written ≡ ok tt
      → p.iout_limit_read ≡ ok limit
      → p.iout_limit_written ≡ ok tt
      → settings.vout_mv < 2 ^ 16
      → Returns (persist time I2cError settings p inner) (λ (inner', actions).
        (inner' ≡ record inner { backoff_duration = time.from_millis settings.backoff_ms })
        × ((vref : ℕ) × (actions
              ≡ write_vref vref
                ∷ write_iout_limit (record limit { setting = limit_value settings.iout_ma })
                ∷ [])
            × (798 ≤ settings.vout_mv
                → settings.vout_mv ≤ 21_312
                → (vref < 2 ^ 11)
                  × (into_nanovolts vref ≤ settings.vout_mv * 56_400)
                  × (settings.vout_mv * 56_400 < into_nanovolts vref + 1_564_500))))
  unfolding persist
  persist-writes settings p limit inner v r w small =
      Returns-bind (from_feedback settings.vout_mv feedback) _ _ _
        (from_feedback_bounds settings.vout_mv small)
        λ vref h.
          rw (v, r, w)
            (
              refl,
              (
                vref,
                refl,
                λ lo hi. let (fits, below, _, near) = h lo hi in (fits, omega (arith, below), near),
              ),
            )
