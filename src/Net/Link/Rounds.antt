-- ===== src/Net/Link/Rounds.antt =====
-- sw/fw/src/systems/net.rs, `net_task`: what a round does, by the answers of the stack and the
-- socket.
use powersupply.Base.{
  ℕ, zero, suc, ◌+◌, ◌*◌, ◌≡◌, refl, ap, ◌∙◌, arith, Bool, true, false, List, [], ◌∷◌, ◌++◌, Option,
  none, some, length, Outcome, returns, panics, ◌>>=◌, bind_then,
}
use powersupply.Storage.{Slot}
use powersupply.Config.{Config, Call, run, call}
use powersupply.Config.Fields.{Settings}
use powersupply.Net.{Client, Parser}
use powersupply.Net.Session.{Session, live, breaks, asked, mqtt_connected_lem}
use powersupply.Net.Link.{
  Event, connected_wifi, connected_mqtt, Round, link_down, refused, no_broker, no_subscription,
  session, Answers, Link, opened, closed, publish_immediate, attempts, link_up, poll, net_round,
}

module _ (slot : Slot Settings) (client : Client) (from_slice : Parser) (fresh : client.State) where
  abbrev pub Linked : Type 0
  Linked = Link slot client from_slice fresh

  -- The calls of `update` that the sessions ask for, one session after the other.
  abbrev pub all_asked : List Round → List (Call slot)
  all_asked (refused ∷ rs) = all_asked rs
  all_asked (session es ∷ rs) =
      asked slot client from_slice (live slot client from_slice es)
      ++ elim (breaks slot client from_slice es) [ true ↦ all_asked rs | false ↦ [] ]
  all_asked _ = []

  -- How often a round feeds the ticket, and how many sessions begin.
  abbrev pub fed : List Round → ℕ
  fed (refused ∷ rs) = fed rs
  fed (session es ∷ rs) =
      suc (length (live slot client from_slice es))
      + elim (breaks slot client from_slice es) [ true ↦ fed rs | false ↦ 0 ]
  fed _ = 0

  abbrev pub sessions : List Round → ℕ
  sessions (refused ∷ rs) = sessions rs
  sessions (session es ∷ rs) =
      suc (elim (breaks slot client from_slice es) [ true ↦ sessions rs | false ↦ 0 ])
  sessions _ = 0

  -- Whether `link_up` returns or waits, or none when it panics.
  abbrev pub leaves : List Round → Option Bool
  leaves [] = some false
  leaves (link_down ∷ rs) = some true
  leaves (refused ∷ rs) = leaves rs
  leaves (no_broker ∷ rs) = none
  leaves (no_subscription ∷ rs) = none
  leaves (session es ∷ rs) = elim (breaks slot client from_slice es) [
    | true ↦ leaves rs
    | false ↦ some false
  ]

  abbrev pub noted : ℕ → List Event → List Event
  noted zero es = es
  noted (suc n) es = noted n (connected_mqtt ∷ es)

  abbrev pub ended : Option Bool → ℕ → List Event → ℕ → Config slot → Outcome (Bool × Linked)
  ended o f es w c = elim o [
    | none ↦ panics
    | some b ↦ returns (b, record { config = c; feeds = f; events = es; slept = w })
  ]

  -- How `link_up` goes on, as its rounds say.
  abbrev goes_on : List Round → Linked → Outcome (Bool × Linked)
  goes_on rs l =
      run slot (all_asked rs) l.config
      >>= ended (leaves rs) (l.feeds + fed rs) (noted (sessions rs) l.events) l.slept

  run-append :
      (ks js : List (Call slot)) (c : Config slot)
      → run slot (ks ++ js) c ≡ (run slot ks c >>= run slot js)
  unfolding run
  run-append [] js c = refl
  run-append (k ∷ ks) js c =
      bind_then (call slot k c) _ (run slot ks) (run slot js) (run-append ks js)

  abbrev state : client.State → Config slot → ℕ → Session slot client from_slice
  state m c f = record { mqtt = m; config = c; feeds = f }

  abbrev with_feeds : Config slot → Linked → ℕ → Linked
  with_feeds c l f = record {
    config = c;
    feeds = f;
    events = connected_mqtt ∷ l.events;
    slept = l.slept;
  }

  after_session :
      (rs : List Round) (l : Linked) (m : client.State) (n : ℕ) (b : Bool)
      (o : Outcome (Config slot))
      → ((l' : Linked) → attempts slot client from_slice fresh rs l' ≡ goes_on rs l')
      → ((o >>= λ c. returns (b, state m c (l.feeds + n))) >>= λ (broken, s). elim broken [
        | true ↦ attempts slot client from_slice fresh rs (
            closed slot client from_slice fresh
              (publish_immediate slot client from_slice fresh connected_mqtt l)
              s)
        | false ↦ returns (
          false,
          closed slot client from_slice fresh
              (publish_immediate slot client from_slice fresh connected_mqtt l)
              s,
        )
      ])
        ≡ ((o >>= run slot (elim b [ true ↦ all_asked rs | false ↦ [] ]))
            >>= ended
                (elim b [ true ↦ leaves rs | false ↦ some false ])
                (l.feeds + (n + elim b [ true ↦ fed rs | false ↦ 0 ]))
                (noted (suc (elim b [ true ↦ sessions rs | false ↦ 0 ])) l.events)
                l.slept)
  unfolding run
  after_session rs l m n b panics ih = refl
  after_session rs l m n true (returns c) ih =
      let e : (l.feeds + n) + fed rs ≡ l.feeds + (n + fed rs) = omega arith in
      ih _
      ∙ ap
          (λ f.
            run slot (all_asked rs) c
            >>= ended (leaves rs) f (noted (suc (sessions rs)) l.events) l.slept)
          e
  after_session rs l m n false (returns c) ih =
      let e : l.feeds + n ≡ l.feeds + (n + 0) = omega arith in
      ap (λ f. returns (false, with_feeds c l f)) e

  attempts-goes_on :
      (rs : List Round) (l : Linked) → attempts slot client from_slice fresh rs l ≡ goes_on rs l
  unfolding attempts run
  attempts-goes_on [] l = ground arith
  attempts-goes_on (link_down ∷ rs) l = ground arith
  attempts-goes_on (refused ∷ rs) l = attempts-goes_on rs l
  attempts-goes_on (no_broker ∷ rs) l = refl
  attempts-goes_on (no_subscription ∷ rs) l = refl
  attempts-goes_on (session es ∷ rs) l =
      let m = publish_immediate slot client from_slice fresh connected_mqtt l in
      rw
        (
          mqtt_connected_lem slot client from_slice es (opened slot client from_slice fresh m),
          run-append (asked slot client from_slice (live slot client from_slice es))
              (elim (breaks slot client from_slice es) [ true ↦ all_asked rs | false ↦ [] ])
              l.config,
        )
        (after_session rs l _ (suc (length (live slot client from_slice es)))
          (breaks slot client from_slice es)
          (run slot (asked slot client from_slice (live slot client from_slice es)) l.config)
          (attempts-goes_on rs))

  -- Whether some poll succeeds, and how many fail before it.
  abbrev pub some_poll : List Bool → Bool
  some_poll [] = false
  some_poll (true ∷ bs) = true
  some_poll (false ∷ bs) = some_poll bs

  abbrev pub failed : List Bool → ℕ
  failed [] = 0
  failed (true ∷ bs) = 0
  failed (false ∷ bs) = suc (failed bs)

  abbrev sleeping : Linked → ℕ → Linked
  sleeping l w = record l { slept = w }

  poll_lem :
      (bs : List Bool) (l : Linked)
      → poll slot client from_slice fresh bs l
        ≡ (some_poll bs, sleeping l (l.slept + 50 * failed bs))
  unfolding poll
  poll_lem [] l = ground arith
  poll_lem (true ∷ bs) l = ground arith
  poll_lem (false ∷ bs) l =
      let e : (l.slept + 50) + 50 * failed bs ≡ l.slept + 50 * suc (failed bs) = omega arith in
      poll_lem bs (record l { slept = l.slept + 50 }) ∙ ap (λ w. (some_poll bs, sleeping l w)) e

  -- A round of `net_task` in which the link comes up and an address is got: the task sleeps 50 ms
  -- for every poll that fails. It publishes that the wireless network is connected, and for every
  -- session with the broker that one begins. The settings are updated as by the calls of `update`
  -- that the messages of these sessions ask for, in their order. The ticket is fed twice at the
  -- beginning, and then for every event of a session and once more for each session: never for a
  -- connection that is refused. The round ends when the link is down, and the task panics when the
  -- broker refuses its client or the subscription.
  pub net_round_lem :
      (a : Answers) (l : Linked)
      → some_poll a.links ≡ true
      → some_poll a.addresses ≡ true
      → net_round slot client from_slice fresh a l ≡ (
          run slot (all_asked a.rounds) l.config
          >>= ended
              (leaves a.rounds)
              (l.feeds + (2 + fed a.rounds))
              (noted (sessions a.rounds) (connected_wifi ∷ l.events))
              (l.slept + 50 * (failed a.links + failed a.addresses)))
  unfolding net_round link_up
  net_round_lem a l u g =
      let f : suc (suc l.feeds) + fed a.rounds ≡ l.feeds + (2 + fed a.rounds) = omega arith in
      let w : (l.slept + 50 * failed a.links) + 50 * failed a.addresses
          ≡ l.slept + 50 * (failed a.links + failed a.addresses) =
        omega arith in
      rw
        (
          poll_lem a.links l,
          u,
          poll_lem a.addresses (sleeping l (l.slept + 50 * failed a.links)),
          g,
          ← f,
          ← w,
        )
        (attempts-goes_on a.rounds _)
