-- ===== src/Net/Session.antt =====
-- sw/fw/src/systems/net.rs: a session with the broker, `mqtt_connected`. What its `select` answers,
-- round by round, is a list.
use Prim.Native.String.{String}
use powersupply.Base.{
  ℕ, suc, ◌+◌, ◌≡◌, ap, ◌∙◌, arith, Bool, true, false, List, [], ◌∷◌, Option, none, some, length,
  Result, ok, err, Outcome, returns, ◌>>=◌, bind_then,
}
use powersupply.Storage.{Slot}
use powersupply.Config.{Config, Call, update_by, update, run, call}
use powersupply.Config.Fields.{Settings, SettingsBuilder, integrate}
use powersupply.Net.{
  ReasonCode, implementation_specific_error, network_error, other_reason, Topic, config_topic,
  stats_topic, record_topic, try_parse, Message, Client, Parser, send_message_qos1,
}

-- `Either`, of the outgoing channel and of the client
pub data Either : Type 0 where
  first : Message → Either
  second : Result (String × List ℕ) ReasonCode → Either

module _ (slot : Slot Settings) (client : Client) (from_slice : Parser) where
  open client use {State}

  -- The client, the configuration, and how often the watchdog ticket was fed.
  pub record Session : Type 0 where
    pub mqtt : State
    pub config : Config slot
    pub feeds : ℕ

  -- `Net::process_message`
  unfoldable pub process_message : String → List ℕ → Config slot → Outcome (Config slot)
  process_message topic buf c = elim (try_parse topic) [
    | none ↦ returns c
    | some t ↦ elim t [
      | config_topic ↦ elim (from_slice buf) [
        | some new_settings ↦ update slot (λ settings. integrate settings new_settings) c
        | none ↦ returns c
      ]
      | _ ↦ returns c
    ]
  ]

  -- The loop of `mqtt_connected`: whether it returned, or waits for a further event.
  unfoldable pub mqtt_connected : List Either → Session → Outcome (Bool × Session)
  unfolding process_message
  mqtt_connected [] s = returns (false, record s { feeds = suc s.feeds })
  mqtt_connected (first message ∷ es) s =
      let (_, c) = send_message_qos1 client message.topic message.content false s.mqtt in
      mqtt_connected es (record s { mqtt = c; feeds = suc s.feeds })
  mqtt_connected (second (ok (topic, buf)) ∷ es) s = process_message topic buf s.config >>= λ c.
      mqtt_connected es (record s { config = c; feeds = suc s.feeds })
  mqtt_connected (second (err implementation_specific_error) ∷ es) s =
      mqtt_connected es (record s { feeds = suc s.feeds })
  mqtt_connected (second (err network_error) ∷ es) s =
      returns (true, record s { feeds = suc s.feeds })
  mqtt_connected (second (err (other_reason _)) ∷ es) s =
      mqtt_connected es (record s { feeds = suc s.feeds })

  -- The events before the first network error, and whether there is one.
  abbrev pub live : List Either → List Either
  live [] = []
  live (second (err network_error) ∷ es) = []
  live (e ∷ es) = e ∷ live es

  abbrev pub breaks : List Either → Bool
  breaks [] = false
  breaks (second (err network_error) ∷ es) = true
  breaks (e ∷ es) = breaks es

  -- The updates of the settings that are asked for: messages on the configuration's topic that parse.
  abbrev pub accepted : String → List ℕ → Option SettingsBuilder
  accepted topic buf = elim (try_parse topic) [ some config_topic ↦ from_slice buf | _ ↦ none ]

  abbrev pub asked : List Either → List (Call slot)
  asked [] = []
  asked (second (ok (topic, buf)) ∷ es) = elim (accepted topic buf) [
    | some b ↦ update_by (λ s. integrate s b) ∷ asked es
    | none ↦ asked es
  ]
  asked (_ ∷ es) = asked es

  -- The client after the messages that are sent.
  abbrev pub after_sending : List Either → State → State
  after_sending [] c = c
  after_sending (first m ∷ es) c =
      after_sending es (send_message_qos1 client m.topic m.content false c).1
  after_sending (_ ∷ es) c = after_sending es c

  -- How a session ends, given the configuration and the number of feeds.
  abbrev ended : List Either → State → ℕ → Config slot → Outcome (Bool × Session)
  ended es m n c =
      returns (breaks es, record { mqtt = after_sending (live es) m; config = c; feeds = n })

  one_more :
      (es : List Either) (m : State) (f : ℕ) (x : Outcome (Bool × Session))
      (o : Outcome (Config slot))
      → x ≡ (o >>= ended es m (suc f + suc (length (live es))))
      → x ≡ (o >>= ended es m (f + suc (suc (length (live es)))))
  one_more es m f x o h =
      let e : suc f + suc (length (live es)) ≡ f + suc (suc (length (live es))) = omega arith in
      h ∙ ap (λ n. o >>= ended es m n) e

  -- By what the topic and the content parse to.
  by_parsed :
      (topic : String) (buf : List ℕ) (es : List Either) (c : Config slot)
      (f k : Config slot → Outcome (Bool × Session))
      → ((c' : Config slot) → f c' ≡ (run slot (asked es) c' >>= k))
      → (process_message topic buf c >>= f)
        ≡ (run slot (asked (second (ok (topic, buf)) ∷ es)) c >>= k)
  unfolding process_message run call
  by_parsed topic buf es c f k h = by_parts (try_parse topic) (from_slice buf)
    where
      by_parts :
          (p : Option Topic) (q : Option SettingsBuilder)
          → ((elim p as (λ _. Outcome (Config slot)) [
            | none ↦ returns c
            | some t ↦ elim t [
              | config_topic ↦ elim q [
                | some b ↦ update slot (λ settings. integrate settings b) c
                | none ↦ returns c
              ]
              | _ ↦ returns c
            ]
          ])
              >>= f)
            ≡ (run slot
                  (elim (elim p as (λ _. Option SettingsBuilder) [
                    | some config_topic ↦ q
                    | _ ↦ none
                  ]) [ some b ↦ update_by (λ s. integrate s b) ∷ asked es | none ↦ asked es ])
                  c
                >>= k)
      by_parts none q = h c
      by_parts (some stats_topic) q = h c
      by_parts (some record_topic) q = h c
      by_parts (some config_topic) none = h c
      by_parts (some config_topic) (some b) =
          bind_then (update slot (λ s. integrate s b) c) f (run slot (asked es)) k h

  -- For any events: the session ends with the first network error and with no other event. Up to
  -- there, every outgoing message is sent (and a failure does not stop the rest), the settings are
  -- updated by the incoming messages on the configuration's topic that parse, in their order and as
  -- by these calls of `update` alone, and the ticket is fed once for each event and once more.
  pub mqtt_connected_lem :
      (es : List Either) (s : Session)
      → mqtt_connected es s ≡ (
          run slot (asked (live es)) s.config >>= λ c. returns (
            breaks es,
            record {
              mqtt = after_sending (live es) s.mqtt;
              config = c;
              feeds = s.feeds + suc (length (live es));
            },
          ))
  unfolding mqtt_connected run
  mqtt_connected_lem [] s = ground arith
  mqtt_connected_lem (first message ∷ es) s =
      let m = (send_message_qos1 client message.topic message.content false s.mqtt).1 in
      one_more es m s.feeds _ _ (mqtt_connected_lem es (record s { mqtt = m; feeds = suc s.feeds }))
  mqtt_connected_lem (second (ok (topic, buf)) ∷ es) s =
      by_parsed topic buf (live es) s.config _ _ λ c.
        one_more es s.mqtt s.feeds _ _
          (mqtt_connected_lem es (record s { config = c; feeds = suc s.feeds }))
  mqtt_connected_lem (second (err implementation_specific_error) ∷ es) s =
      one_more es s.mqtt s.feeds _ _ (mqtt_connected_lem es (record s { feeds = suc s.feeds }))
  mqtt_connected_lem (second (err network_error) ∷ es) s = ground arith
  mqtt_connected_lem (second (err (other_reason _)) ∷ es) s =
      one_more es s.mqtt s.feeds _ _ (mqtt_connected_lem es (record s { feeds = suc s.feeds }))
