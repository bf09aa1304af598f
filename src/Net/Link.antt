-- ===== src/Net/Link.antt =====
-- sw/fw/src/systems/net.rs: `net_task` and `link_up`, around the sessions with the broker. The stack
-- and the socket are what they answer.
pub mod Rounds
use powersupply.Base.{
  ℕ, zero, suc, ◌+◌, ◌*◌, ◌≡◌, refl, ap, ◌∙◌, arith, Bool, true, false, List, [], ◌∷◌, ◌++◌, Option,
  none, some, length, if◌then◌else◌, Outcome, returns, panics, ◌>>=◌, bind_then,
}
use powersupply.Storage.{Slot}
use powersupply.Config.{Config, Call, run, call}
use powersupply.Config.Fields.{Settings}
use powersupply.Net.{Client, Parser}
use powersupply.Net.Session.{
  Either, Session, mqtt_connected, live, breaks, asked, mqtt_connected_lem,
}

-- `Event`
pub data Event : Type 0 where
  connected_wifi connected_mqtt : Event

-- What a round of the loop of `link_up` meets: the link is down, the socket does not connect, the
-- broker refuses the connection or the subscription, or a session with these events.
pub data Round : Type 0 where
  link_down refused no_broker no_subscription : Round
  session : List Either → Round

-- A round of `net_task`: what `is_link_up` answers, what `config_v4` answers, and the rounds of
-- `link_up`.
pub record Answers : Type 0 where
  pub links : List Bool
  pub addresses : List Bool
  pub rounds : List Round

module _ (slot : Slot Settings) (client : Client) (from_slice : Parser) (fresh : client.State) where
  -- The configuration, how often the ticket was fed, the events published, the last one first, and
  -- for how many milliseconds the task slept.
  pub record Link : Type 0 where
    pub config : Config slot
    pub feeds : ℕ
    pub events : List Event
    pub slept : ℕ

  abbrev pub opened : Link → Session slot client from_slice
  opened l = record { mqtt = fresh; config = l.config; feeds = l.feeds }

  abbrev pub closed : Link → Session slot client from_slice → Link
  closed l s = record l { config = s.config; feeds = s.feeds }

  abbrev pub publish_immediate : Event → Link → Link
  publish_immediate e l = record l { events = e ∷ l.events }

  abbrev pub feed : Link → Link
  feed l = record l { feeds = suc l.feeds }

  -- The loop of `link_up`: whether it returned, or waits for an answer.
  unfoldable pub attempts : List Round → Link → Outcome (Bool × Link)
  attempts [] l = returns (false, l)
  attempts (link_down ∷ rs) l = returns (true, l)
  attempts (refused ∷ rs) l = attempts rs l
  attempts (no_broker ∷ rs) l = panics
  attempts (no_subscription ∷ rs) l = panics
  attempts (session es ∷ rs) l =
      let m = publish_immediate connected_mqtt l in
      mqtt_connected slot client from_slice es (opened m) >>= λ (broken, s). elim broken [
        | true ↦ attempts rs (closed m s)
        | false ↦ returns (false, closed m s)
      ]

  unfoldable pub link_up : List Round → Link → Outcome (Bool × Link)
  link_up rs l = attempts rs (feed (publish_immediate connected_wifi l))

  -- A polling loop of `net_task`: whether it was left.
  unfoldable pub poll : List Bool → Link → Bool × Link
  poll [] l = (false, l)
  poll (true ∷ bs) l = (true, l)
  poll (false ∷ bs) l = poll bs (record l { slept = l.slept + 50 })

  unfoldable pub net_round : Answers → Link → Outcome (Bool × Link)
  unfolding poll
  net_round a l =
      let (up, l1) = poll a.links l in
      let (got, l2) = poll a.addresses l1 in
      if up
      then (if got then link_up a.rounds (feed l2) else returns (false, l2))
      else returns (false, l1)

  unfoldable pub net_task : List Answers → Link → Outcome Link
  net_task [] l = returns l
  net_task (a ∷ as_) l =
      net_round a l >>= λ (left, l'). elim left [ true ↦ net_task as_ l' | false ↦ returns l' ]
