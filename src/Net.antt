-- ===== src/Net.antt =====
-- sw/fw/src/systems/net.rs: the messages to and from the broker. The client of the crate rust-mqtt
-- and the JSON of serde_json_core are parameters, and so are the radio and the TCP/IP stack.
pub mod Session
pub mod Link
pub mod Radio
use Prim.Native.String.{String, len}
use native.Mathlib.Decide.{dec_lt}
use text.Mathlib.Text.{◌==◌ as str_eq}
use powersupply.Base.{
  ℕ, zero, suc, ◌+◌, ◌-◌, ◌<◌, ◌≡◌, refl, ap, ◌∙◌, arith, Bool, true, false, ltb, ◌≤◌, List, Option,
  none, some, if◌then◌else◌, leb, Result, ok, err,
}
use powersupply.Config.Fields.{SettingsBuilder}

-- The reason codes that the source tells apart.
pub data ReasonCode : Type 0 where
  implementation_specific_error network_error : ReasonCode
  other_reason : ℕ → ReasonCode

pub data Topic : Type 0 where
  stats_topic record_topic config_topic : Topic

abbrev pub topic_size : ℕ
topic_size = 64

abbrev pub content_size : ℕ
content_size = 128

-- `String::<TOPIC_SIZE>::try_from`, which counts bytes
try_from : String → Option String
try_from s = if leb (len s) topic_size then some s else none

unfoldable pub to_str : Topic → Option String
unfolding try_from
to_str stats_topic = try_from "slakkotron/stats"
to_str record_topic = try_from "slakkotron/record"
to_str config_topic = try_from "slakkotron/config"

unfoldable pub try_parse : String → Option Topic
try_parse str = if str_eq str "slakkotron/config" then some config_topic else none

pub record Message : Type 0 where
  pub topic : String
  pub content : List ℕ

pub data Error : Type 0 where
  topic_too_large content_too_large : Error

-- `Message::new`, given what serde_json_core writes for the value into so many bytes.
unfoldable pub new : Topic → (ℕ → Option (List ℕ)) → Result Message Error
unfolding to_str
new topic to_slice = elim (to_str topic) [
  | none ↦ err topic_too_large
  | some str ↦ elim (to_slice content_size) [
    | none ↦ err content_too_large
    | some bytes ↦ ok (record { topic = str; content = bytes })
  ]
]

-- `MqttClient::send_message`, at QoS 1: the topic, the content and the flag `retain`.
pub record Client : Type 1 where
  pub State : Type 0
  pub send_message : String → List ℕ → Bool → State → Result (Unit {0}) ReasonCode × State

-- `serde_json_core::from_slice::<SettingsBuilder>`
abbrev pub Parser : Type 0
Parser = List ℕ → Option SettingsBuilder

module _ (client : Client) where
  open client use {State, send_message}

  -- The loop of `send_message_qos1`, for so many attempts.
  attempts : ℕ → String → List ℕ → Bool → State → Result (Unit {0}) ReasonCode × State
  attempts zero topic content retain c = (err implementation_specific_error, c)
  attempts (suc n) topic content retain c =
      let (r, c') = send_message topic content retain c in
      elim r [
        | ok _ ↦ (ok tt, c')
        | err e ↦ elim e [
          | implementation_specific_error ↦ attempts n topic content retain c'
          | network_error ↦ (err network_error, c')
          | other_reason n ↦ (err (other_reason n), c')
        ]
      ]

  unfoldable pub send_message_qos1 :
      String → List ℕ → Bool → State → Result (Unit {0}) ReasonCode × State
  unfolding attempts
  send_message_qos1 = attempts 5

  -- The first `k` attempts are answered by the error of an unrelated packet; the client is at `t` then.
  abbrev pub LossyUntil : String → List ℕ → Bool → ℕ → State → State → Type 0
  LossyUntil topic content retain zero s t = s ≡ t
  LossyUntil topic content retain (suc k) s t =
      ((send_message topic content retain s).0 ≡ err implementation_specific_error)
      × LossyUntil topic content retain k (send_message topic content retain s).1 t

  -- What an attempt answers that is not that error.
  abbrev pub Answers : Result (Unit {0}) ReasonCode → Type 0
  Answers (ok _) = Unit
  Answers (err implementation_specific_error) = ⊥
  Answers (err _) = Unit

  attempts_answer :
      (n : ℕ) (topic : String) (content : List ℕ) (retain : Bool) (t : State)
      (r : Result (Unit {0}) ReasonCode)
      → Answers r
      → (send_message topic content retain t).0 ≡ r
      → attempts (suc n) topic content retain t ≡ (r, (send_message topic content retain t).1)
  unfolding attempts
  attempts_answer n topic content retain t (ok _) a e = rw (attempts, e) refl
  attempts_answer n topic content retain t (err implementation_specific_error) a e = absurd a
  attempts_answer n topic content retain t (err network_error) a e = rw (attempts, e) refl
  attempts_answer n topic content retain t (err (other_reason m)) a e = rw (attempts, e) refl

  attempts_lossy :
      (k m n : ℕ) (topic : String) (content : List ℕ) (retain : Bool) (s t : State)
      → m ≡ k + n
      → LossyUntil topic content retain k s t
      → attempts m topic content retain s ≡ attempts n topic content retain t
  unfolding attempts
  attempts_lossy zero m n topic content retain s t e l =
      let same : m ≡ n = omega arith in rw (same, l) refl
  attempts_lossy (suc k) zero n topic content retain s t e l = absurd (omega arith)
  attempts_lossy (suc k) (suc m) n topic content retain s t e l =
      rw (attempts, l.0)
        (attempts_lossy k m n topic content retain (send_message topic content retain s).1 t
          (omega arith) l.1)

  -- Attempts that are answered by an unrelated packet are repeated, and five times at most: after `k`
  -- of them, fewer than five, the next answer, which is another one, is the result, be it success or
  -- an error; after five the result is that error, and no sixth attempt is made.
  pub send_message_qos1_lem :
      (topic : String) (content : List ℕ) (retain : Bool) (s t : State) (k : ℕ)
      → k ≤ 5
      → LossyUntil topic content retain k s t
      → (k < 5 → Answers (send_message topic content retain t).0)
      → send_message_qos1 topic content retain s ≡ (
          if ltb k 5
          then send_message topic content retain t
          else (err implementation_specific_error, t))
  unfolding send_message_qos1
  send_message_qos1_lem topic content retain s t k le l a = elim (dec_lt k 5) [
    | yes lt ↦
        let b : ltb k 5 ≡ true = ground arith in
        rw b (
          attempts_lossy k 5 (suc (4 - k)) topic content retain s t (omega arith) l
          ∙ attempts_answer (4 - k) topic content retain t _ (a lt) refl)
    | no ge ↦
        let b : ltb k 5 ≡ false = ground arith in
        rw b (attempts_lossy k 5 0 topic content retain s t (omega arith) l)
  ]
