-- ===== src/Events/Deadlock.antt =====
-- sw/fw/src/systems/config.rs, `update`, and sw/fw/src/systems/events.rs, `publish_task`: each can
-- wait for the other; and so can `update` and `push_task` of sw/fw/src/systems/config.rs.
use powersupply.Base.{
  ℕ, suc, ◌≡◌, refl, ap, ◌∙◌, sym, arith, Bool, true, false, ◌&&◌, ◌||◌, inl, inr, Bool-cases, ltb,
  List, [], ◌∷◌, Option, none, some, if◌then◌else◌,
}
use powersupply.Net.{Topic}
use powersupply.Events.Channels.{
  NetPc, listening, publishing, PublishPc, selecting, sending, World, Task, net_task, publish_task,
  config_task, push_task, other, publish_settings, publish_stats, publish_record, step, steps,
  net_step, publish_step,
}

abbrev one_more_if : Bool → ℕ → ℕ
one_more_if true n = suc n
one_more_if false n = n

-- How many messages `publish_task` sends before it reads one of the configuration.
abbrev ahead : PublishPc → Bool → Bool → ℕ
ahead selecting s r = one_more_if s (one_more_if r 0)
ahead (sending _) s r = suc (one_more_if s (one_more_if r 0))

abbrev room : Option Topic → ℕ
room none = 1
room (some _) = 0

-- The network's task waits in `update` for `publish_task` to read, and that has more messages to
-- send before it does than the channel has room for.
abbrev pub is_blocked : World → Bool
is_blocked w = elim w.net [
  | listening ↦ false
  | publishing ↦ w.to_publish && ltb (room w.outgoing) (ahead w.publisher w.stats w.record_data)
]

-- The network's task waits in `update` for `push_task` to read, and that waits for the lock.
abbrev pub is_locked_up : World → Bool
is_locked_up w = elim w.net [ listening ↦ false | publishing ↦ w.parked && w.to_push ]

abbrev pub is_stuck : World → Bool
is_stuck w = is_locked_up w || is_blocked w

abbrev world : NetPc → PublishPc → Option Topic → (s r a b c parked : Bool) → ℕ → World
world net p o s r a b c k f = record {
  net = net;
  publisher = p;
  outgoing = o;
  stats = s;
  record_data = r;
  to_power = a;
  to_push = b;
  to_publish = c;
  parked = k;
  feeds = f;
}

abbrev Stays : (World → Bool) → Task → World → Type 0
Stays stuck t w = (stuck (step t w) ≡ true) × ((step t w).feeds ≡ w.feeds)

step-is_locked_up : (t : Task) (w : World) → is_locked_up w ≡ true → Stays is_locked_up t w
unfolding step
step-is_locked_up t w =
    by_net t w.net w.publisher w.outgoing w.stats w.record_data w.to_power w.to_push w.to_publish
      w.parked w.feeds
  where
    by_net :
        (t : Task) (net : NetPc) (p : PublishPc) (o : Option Topic) (s r a b c k : Bool) (f : ℕ)
        → is_locked_up (world net p o s r a b c k f) ≡ true
        → Stays is_locked_up t (world net p o s r a b c k f)
    by_net t listening p o s r a b c k f h = ground arith
    by_net t publishing p o s r a b c false f h = ground arith
    by_net t publishing p o s r a false c true f h = ground arith
    by_net (net_task x) publishing p o s r true true c true f h = (refl, refl)
    by_net (net_task x) publishing p o s r false true c true f h = (refl, refl)
    by_net publish_task publishing p o s r a true c true f h = ground arith
    by_net config_task publishing p o s r a true c true f h = (refl, refl)
    by_net (push_task e) publishing p o s r a true c true f h = (refl, refl)
    by_net publish_settings publishing p o s r a true c true f h = (refl, refl)
    by_net publish_stats publishing p o s r a true c true f h = (refl, refl)
    by_net publish_record publishing p o s r a true c true f h = (refl, refl)

by_fields :
    (t : Task) (net : NetPc) (p : PublishPc) (o : Option Topic) (s r a b c k : Bool) (f : ℕ)
    → is_blocked (world net p o s r a b c k f) ≡ true
    → Stays is_blocked t (world net p o s r a b c k f)
unfolding step
by_fields t listening p o s r a b c k f h = ground arith
by_fields t publishing p o s r a b false k f h = ground arith
by_fields (net_task x) publishing p o s r true b true k f h = (h, refl)
by_fields (net_task x) publishing p o s r false true true k f h = (h, refl)
by_fields (net_task x) publishing p o s r false false true k f h = (h, refl)
by_fields publish_task publishing selecting o true r a b true k f h = (h, refl)
by_fields publish_task publishing selecting o false true a b true k f h = (h, refl)
by_fields publish_task publishing selecting o false false a b true k f h = ground arith
by_fields publish_task publishing (sending t) none s r a b true k f h = ground arith
by_fields publish_task publishing (sending t) (some m) s r a b true k f h = (h, refl)
by_fields config_task publishing p o s r a b true k f h = (h, refl)
by_fields (push_task e) publishing p o s r a b true true f h = (h, refl)
by_fields (push_task e) publishing p o s r a true true false f h = (h, refl)
by_fields (push_task true) publishing p o s r a false true false f h = (h, refl)
by_fields (push_task false) publishing p o s r a false true false f h = (h, refl)
by_fields publish_settings publishing p o s r a b true k f h = (h, refl)
by_fields publish_stats publishing p o s r a b true k f h = ground arith
by_fields publish_record publishing p o s r a b true k f h = ground arith

step-is_blocked : (t : Task) (w : World) → is_blocked w ≡ true → Stays is_blocked t w
step-is_blocked t w =
    by_fields t w.net w.publisher w.outgoing w.stats w.record_data w.to_power w.to_push w.to_publish
      w.parked w.feeds

step-is_stuck : (t : Task) (w : World) → is_stuck w ≡ true → Stays is_stuck t w
step-is_stuck t w h = elim (Bool-cases (is_locked_up w)) [
  | inl l ↦ let (k, e) = step-is_locked_up t w l in (ground arith, e)
  | inr l ↦ let (k, e) = step-is_blocked t w (ground arith) in (ground arith, e)
]

steps-is_stuck :
    (ts : List Task) (w : World)
    → is_stuck w ≡ true
    → (is_stuck (steps ts w) ≡ true) × ((steps ts w).feeds ≡ w.feeds)
unfolding steps
steps-is_stuck [] w h = (h, refl)
steps-is_stuck (t ∷ ts) w h =
    let (h', e) = step-is_stuck t w h in
    let (h'', e') = steps-is_stuck ts (step t w) h' in (h'', e' ∙ e)

-- Enough of the tasks, one after the other, to bring the network's task to its next round.
abbrev pub round : List Task
round =
    config_task ∷ push_task false ∷ publish_task ∷ publish_task ∷ publish_task ∷ net_task other ∷ []

-- What a step of `publish_task` leaves as it is.
abbrev Kept : World → World → Type 0
Kept w v =
    (v.net ≡ w.net)
    × (v.feeds ≡ w.feeds)
    × (v.to_power ≡ w.to_power)
    × (v.to_push ≡ w.to_push)
    × (w.to_publish ≡ false → v.to_publish ≡ false)

publish_step-Kept :
    (net : NetPc) (p : PublishPc) (o : Option Topic) (s r a b c k : Bool) (f : ℕ)
    → Kept (world net p o s r a b c k f) (publish_step (world net p o s r a b c k f))
publish_step-Kept net selecting o true r a b c k f = (refl, refl, refl, refl, λ e. e)
publish_step-Kept net selecting o false true a b c k f = (refl, refl, refl, refl, λ e. e)
publish_step-Kept net selecting o false false a b true k f = (refl, refl, refl, refl, λ _. refl)
publish_step-Kept net selecting o false false a b false k f = (refl, refl, refl, refl, λ e. e)
publish_step-Kept net (sending t) none s r a b c k f = (refl, refl, refl, refl, λ e. e)
publish_step-Kept net (sending t) (some m) s r a b c k f = (refl, refl, refl, refl, λ e. e)

publish_Kept : (w : World) → Kept w (publish_step w)
publish_Kept w =
    publish_step-Kept w.net w.publisher w.outgoing w.stats w.record_data w.to_power w.to_push
      w.to_publish w.parked w.feeds

abbrev three : World → World
three w = publish_step (publish_step (publish_step w))

three-Kept : (w : World) → Kept w (three w)
three-Kept w =
    let (n1, f1, a1, b1, c1) = publish_Kept w in
    let (n2, f2, a2, b2, c2) = publish_Kept (publish_step w) in
    let (n3, f3, a3, b3, c3) = publish_Kept (publish_step (publish_step w)) in
    (n3 ∙ (n2 ∙ n1), f3 ∙ (f2 ∙ f1), a3 ∙ (a2 ∙ a1), b3 ∙ (b2 ∙ b1), λ e. c3 (c2 (c1 e)))

-- Unless it is stuck, `publish_task` reads the settings within three steps.
three-reads :
    (p : PublishPc) (o : Option Topic) (s r c k : Bool) (f : ℕ)
    → is_blocked (world publishing p o s r false false c k f) ≡ false
    → (three (world publishing p o s r false false c k f)).to_publish ≡ false
three-reads p o s r false k f h =
    (three-Kept (world publishing p o s r false false false k f)).4 refl
three-reads selecting none false false true k f h = refl
three-reads selecting (some m) false false true k f h = refl
three-reads selecting none true false true k f h = refl
three-reads selecting none false true true k f h = refl
three-reads (sending t) none false false true k f h = refl
three-reads selecting none true true true k f h = ground arith
three-reads selecting (some m) true r true k f h = ground arith
three-reads selecting (some m) false true true k f h = ground arith
three-reads (sending t) none true r true k f h = ground arith
three-reads (sending t) none false true true k f h = ground arith
three-reads (sending t) (some m) s r true k f h = ground arith

net_step-feeds :
    (net : NetPc) (p : PublishPc) (o : Option Topic) (s r a b c k : Bool) (f : ℕ)
    → (net ≡ publishing → (a ≡ false) × (b ≡ false) × (c ≡ false))
    → (net_step other (world net p o s r a b c k f)).feeds ≡ suc f
net_step-feeds listening p none s r a b c k f h = refl
net_step-feeds listening p (some m) s r a b c k f h = refl
net_step-feeds publishing p o s r a b c k f h = let (x, y, z) = h refl in rw (x, y, z) refl

-- The network's task, after three steps of `publish_task`.
three-feeds :
    (w : World)
    → (w.net ≡ publishing
        → (w.to_power ≡ false) × (w.to_push ≡ false) × ((three w).to_publish ≡ false))
    → (net_step other (three w)).feeds ≡ suc w.feeds
three-feeds w h =
    let v = three w in
    let k = three-Kept w in
    net_step-feeds v.net v.publisher v.outgoing v.stats v.record_data v.to_power v.to_push
      v.to_publish v.parked v.feeds (λ e. let (x, y, z) = h (sym k.0 ∙ e) in (k.2 ∙ x, k.3 ∙ y, z))
    ∙ ap suc k.1

listens : {A : Type 0} → listening ≡ publishing → A
listens e = absurd (ground arith)

round-feeds :
    (net : NetPc) (p : PublishPc) (o : Option Topic) (s r a b c k : Bool) (f : ℕ)
    → is_stuck (world net p o s r a b c k f) ≡ false
    → (steps round (world net p o s r a b c k f)).feeds ≡ suc f
unfolding steps step
round-feeds listening p o s r a b c true f h =
    three-feeds (world listening p o s r true true true false f) listens
round-feeds listening p o s r a true c false f h =
    three-feeds (world listening p o s r false false c false f) listens
round-feeds listening p o s r a false c false f h =
    three-feeds (world listening p o s r false false c false f) listens
round-feeds publishing p o s r a true c true f h = absurd (ground arith)
round-feeds publishing p o s r a true c false f h =
    three-feeds (world publishing p o s r false false c false f)
      (λ _. (refl, refl, three-reads p o s r c false f h))
round-feeds publishing p o s r a false c true f h =
    three-feeds (world publishing p o s r false false c true f)
      (λ _. (refl, refl, three-reads p o s r c true f h))
round-feeds publishing p o s r a false c false f h =
    three-feeds (world publishing p o s r false false c false f)
      (λ _. (refl, refl, three-reads p o s r c false f h))

-- `update` awaits room in the notifier with the network's task in it, and `publish_task` awaits room
-- in the outgoing channel, which only the network's task empties. The network's task waits for all
-- subscribers to read the settings of the last update. If `publish_task` has to send more messages
-- before it reads them than the channel has room for, or if `push_task` has them to read and waits
-- for the lock that the update holds, no sequence of steps of the tasks feeds the watchdog ticket
-- of the network again. In every other state, one round of the tasks feeds it, in which a message
-- of the broker is received that does not change the settings, or one of the firmware is sent.
pub is_stuck_lem :
    (w : World) (ts : List Task)
    → (steps (if is_stuck w then ts else round) w).feeds
      ≡ (if is_stuck w then w.feeds else suc w.feeds)
is_stuck_lem w ts = by_case (is_stuck w) refl
  where
    by_case :
        (b : Bool)
        → is_stuck w ≡ b
        → (steps (if b then ts else round) w).feeds ≡ (if b then w.feeds else suc w.feeds)
    by_case true h = (steps-is_stuck ts w h).1
    by_case false h =
        round-feeds w.net w.publisher w.outgoing w.stats w.record_data w.to_power w.to_push
          w.to_publish w.parked w.feeds h
