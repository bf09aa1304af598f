-- ===== src/Tests/Feeds.antt =====
-- Two tasks with tickets, fed in turn.
use powersupply.Base.{◌≤◌, ◌≡◌, refl, true, false, [], ◌∷◌, arith, set, returns, Returns}
use powersupply.Watchdog.{Inner, empty_mask, init, feed, ticket, run}
use powersupply.Watchdog.Rounds.{covers, any_true}
use powersupply.Watchdog.Timing.{survives}
use powersupply.Watchdog.Stalled.{count_true, run-stalled, survives-stalled}
use powersupply.Watchdog.Loops.{feeds, app_loop, survives-Timely, app_loop-Timely}
use powersupply.Watchdog.Tickets.{Reach, boot, issue, fed_iff_covers}

abbrev two : Inner
two = record { mask = empty_mask; count = 2 }

fed_iff_covers_example :
    Returns (run (0 ∷ 1 ∷ 0 ∷ []) two) (λ (flags, _). any_true flags ≡ covers 2 (0 ∷ 1 ∷ 0 ∷ []))
fed_iff_covers_example =
    fed_iff_covers (0 ∷ 1 ∷ 0 ∷ []) two refl (omega arith) (omega arith)
      (omega arith, (omega arith, (omega arith, tt)))

abbrev w_1 : Inner
w_1 = record { mask = empty_mask; count = 1 }

abbrev w_2 : Inner
w_2 = record { mask = set empty_mask 1 true; count = 2 }

issued_1 : ticket init ≡ returns (0, true, w_1)
unfolding ticket feed init
issued_1 = refl

issued_2 : ticket w_1 ≡ returns (1, false, w_2)
unfolding ticket feed
issued_2 = refl

reached : Reach w_2
reached = issue (issue boot issued_1) issued_2

-- The first ticket is stalled: the round that has begun is completed by no one.
run-stalled_example : Returns (run (1 ∷ 1 ∷ 1 ∷ []) w_2) (λ (flags, _). count_true flags ≤ 1)
run-stalled_example =
    run-stalled (1 ∷ 1 ∷ 1 ∷ []) 0 reached (omega arith)
      (omega arith, (omega arith, (omega arith, tt))) refl

-- The second one feeds on.
survives-stalled_example :
    Returns
      (survives 1 ((10, 1) ∷ (29, 1) ∷ (35, 1) ∷ []) 0 (record { mask = empty_mask; count = 2 }))
      (λ b. b ≡ false)
survives-stalled_example =
    survives-stalled 1 ((10, 1) ∷ (29, 1) ∷ (35, 1) ∷ []) (record { mask = empty_mask; count = 2 })
      0 0 refl (omega arith) (omega arith) (omega arith, (omega arith, (omega arith, tt))) refl refl

-- `app` alone, on a clock of milliseconds, with wake-ups that are late.
survives-Timely_example :
    Returns
      (survives 1000 (feeds (app_loop 1000 0 29_000 (3 ∷ 999 ∷ 0 ∷ 20 ∷ []))) 0 w_1)
      (λ b. b ≡ true)
survives-Timely_example =
    survives-Timely 1000 (app_loop 1000 0 29_000 (3 ∷ 999 ∷ 0 ∷ 20 ∷ [])) w_1 0 (λ _. 29_000) refl
      (omega arith) (omega arith) (λ j lt. omega arith)
      (app_loop-Timely 1000 (3 ∷ 999 ∷ 0 ∷ 20 ∷ []) 0 29_000 (λ _. 29_000) (omega arith)
        (omega arith) (omega arith, (omega arith, (omega arith, (omega arith, tt)))))
