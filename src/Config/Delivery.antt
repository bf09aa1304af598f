-- ===== src/Config/Delivery.antt =====
-- How the settings of sw/fw/src/systems/config.rs reach the converter: `config_task` of
-- sw/fw/src/systems/power_ext.rs subscribes to them, beside `push_task` and, in
-- sw/fw/src/systems/events.rs, `publish_task`. The notifier holds one message.
use powersupply.Base.{
  ◌≡◌, refl, sym, ◌∙◌, Bool, true, false, not, ◌&&◌, ◌||◌, List, [], ◌∷◌, arith, inl, inr,
  Bool-cases, if◌then◌else◌, Outcome, returns, ◌>>=◌, Returns, Returns-bind, Returns-mono, Ensures,
  Ensures-bind,
}
use powersupply.Storage.{Slot}
use powersupply.Config.Fields.{Settings, settings_eq, settings_eq_sound}
use powersupply.Config.{Config, update, publish_immediate}

module _ (slot : Slot Settings) where
  -- `waiting`: an `update` has stored its settings and awaits room in the notifier, with the lock.
  -- `to_power`, `to_push` and `to_publish`: the subscriber has not read the message. `lagged`: one
  -- was overwritten that `config_task` had not read. `parked`: the timer of `push_task` has run out,
  -- and it waits for the lock, and reads nothing. `applied`: what `persist` of power_ext.rs was
  -- called with last.
  pub record World : Type 0 where
    pub config : Config slot
    pub waiting : Bool
    pub message : Settings
    pub to_power : Bool
    pub to_push : Bool
    pub to_publish : Bool
    pub lagged : Bool
    pub parked : Bool
    pub applied : Settings

  -- `PowerExt::init` persists what it fetches.
  abbrev pub booted : Config slot → World
  booted c = record {
    config = c;
    waiting = false;
    message = c.settings;
    to_power = false;
    to_push = false;
    to_publish = false;
    lagged = false;
    parked = false;
    applied = c.settings;
  }

  -- A task that runs up to its next `await`: a call of `update`, one that goes on when there is
  -- room, a publication by `publish_immediate`, and the three subscribers; `push_task` with whether
  -- its timer has run out. A task that waits for the lock stays as it is while that is held.
  pub data Task : Type 0 where
    update_by : (Settings → Settings) → Task
    push_task : (elapsed : Bool) → Task
    go_on publish_settings config_task publish_task : Task

  abbrev notify : World → World
  notify w = record w {
    message = w.config.settings;
    to_power = true;
    to_push = true;
    to_publish = true;
  }

  abbrev has_room : World → Bool
  has_room w = not w.to_power && (not w.to_push && not w.to_publish)

  -- A subscriber is told first that it lagged, which `config_task` skips.
  abbrev read_power : World → World
  read_power w =
      if w.lagged
      then record w { lagged = false }
      else if w.to_power
      then record w { applied = w.message; to_power = false }
      else w

  -- `publish_immediate` with the lock: what `config_task` had not read is lost.
  abbrev publish_now : World → World
  publish_now w =
      notify
        (record w { config = publish_immediate slot w.config; lagged = w.lagged || w.to_power })

  -- `push_task` takes the lock that it waits for, or stays; or it is in `select`, which looks at the
  -- subscription before the timer.
  abbrev push_round : Bool → World → World
  push_round elapsed w =
      if w.parked
      then (if w.waiting then w else publish_now (record w { parked = false }))
      else if w.to_push
      then record w { to_push = false }
      else if elapsed
      then (if w.waiting then record w { parked = true } else publish_now w)
      else w

  unfoldable pub step : Task → World → Outcome World
  unfolding publish_immediate
  step (update_by f) w = if w.waiting then returns w else (do
    c ← update slot f w.config
    returns (record w {
      config = c;
      waiting = not (settings_eq w.config.settings (f w.config.settings));
    }))
  step go_on w =
      returns (if w.waiting && has_room w then notify (record w { waiting = false }) else w)
  step publish_settings w = returns (if w.waiting then w else publish_now w)
  step config_task w = returns (read_power w)
  step (push_task elapsed) w = returns (push_round elapsed w)
  step publish_task w = returns (record w { to_publish = false })

  unfoldable pub steps : List Task → World → Outcome World
  unfolding step
  steps [] w = returns w
  steps (t ∷ ts) w = step t w >>= steps ts

  -- The converter has the settings, or has them still to read.
  pub record Fresh (w : World) : Type 0 where
    pub pending : w.waiting ≡ false → w.to_power ≡ true → w.message ≡ w.config.settings
    pub current : w.waiting ≡ false → w.to_power ≡ false → w.applied ≡ w.config.settings
    pub late : w.lagged ≡ true → w.to_power ≡ true

  update_settings :
      (f : Settings → Settings) (c : Config slot)
      → Ensures (update slot f c) (λ d. d.settings ≡ f c.settings)
  unfolding update
  update_settings f c = ground arith

  updated_Fresh :
      (f : Settings → Settings) (w : World) (d : Config slot)
      → Fresh w
      → w.waiting ≡ false
      → d.settings ≡ f w.config.settings
      → Fresh (record w {
        config = d;
        waiting = not (settings_eq w.config.settings (f w.config.settings));
      })
  updated_Fresh f w d h free e =
      elim (Bool-cases (settings_eq w.config.settings (f w.config.settings))) [
        | inl same ↦
            let q = settings_eq_sound w.config.settings (f w.config.settings) same in
            record {
              pending = λ _ u. h.pending free u ∙ q ∙ sym e;
              current = λ _ u. h.current free u ∙ q ∙ sym e;
              late = h.late;
            }
        | inr new ↦ record {
          pending = λ z. ground arith;
          current = λ z. ground arith;
          late = h.late;
        }
      ]

  step-Fresh : (t : Task) (w : World) → Fresh w → Ensures (step t w) Fresh
  unfolding step
  step-Fresh (update_by f) w h = elim (Bool-cases w.waiting) [
    | inl held ↦ simp held h
    | inr free ↦ simp free (
        Ensures-bind (update slot f w.config) _ (λ d. d.settings ≡ f w.config.settings) _
          (update_settings f w.config) (λ d e. updated_Fresh f w d h free e))
  ]
  step-Fresh go_on w h = ground arith
  step-Fresh publish_settings w h = ground arith
  step-Fresh config_task w h = ground arith
  step-Fresh (push_task elapsed) w h = ground arith
  step-Fresh publish_task w h = ground arith

  steps-Fresh : (ts : List Task) (w : World) → Fresh w → Ensures (steps ts w) Fresh
  unfolding steps
  steps-Fresh [] w h = h
  steps-Fresh (t ∷ ts) w h =
      Ensures-bind (step t w) _ Fresh _ (step-Fresh t w h) (λ v k. steps-Fresh ts v k)

  -- The subscribers read, an update that waits goes on, and `config_task` reads again.
  abbrev pub catch_up : List Task
  catch_up = config_task ∷ config_task ∷ push_task false ∷ publish_task ∷ go_on ∷ config_task ∷ []

  -- An update holds the lock and waits for `push_task` to read, and that waits for the lock.
  abbrev pub is_locked_up : World → Bool
  is_locked_up w = w.waiting && (w.parked && w.to_push)

  abbrev SameSettings : Config slot → Config slot → Type 0
  SameSettings c d = (d.settings ≡ c.settings) × (d.storage ≡ c.storage)

  abbrev pub Applied : World → World → Type 0
  Applied w v =
      (v.applied ≡ w.config.settings) × SameSettings w.config v.config × (v.waiting ≡ false)

  -- The lock stays held, and the update is not published.
  abbrev pub LockedUp : World → World → Type 0
  LockedUp w v = (is_locked_up v ≡ true) × (v.config ≡ w.config)

  abbrev world :
      Config slot
      → Settings
      → Settings
      → (waiting to_power to_push to_publish lagged parked : Bool) → World
  world c m a waiting to_power to_push to_publish lagged parked = record {
    config = c;
    waiting = waiting;
    message = m;
    to_power = to_power;
    to_push = to_push;
    to_publish = to_publish;
    lagged = lagged;
    parked = parked;
    applied = a;
  }

  -- With `push_task` in `select`, or parked with nothing to read.
  by_flags :
      (c : Config slot) (m a : Settings) (waiting to_power to_push to_publish lagged parked : Bool)
      → Fresh (world c m a waiting to_power to_push to_publish lagged parked)
      → is_locked_up (world c m a waiting to_power to_push to_publish lagged parked) ≡ false
      → Returns
          (steps catch_up (world c m a waiting to_power to_push to_publish lagged parked))
          (Applied (world c m a waiting to_power to_push to_publish lagged parked))
  unfolding steps step publish_immediate
  by_flags c m a true p true b l true h free = absurd (ground arith)
  by_flags c m a true true true b true false h free = (refl, (refl, refl), refl)
  by_flags c m a true true true b false false h free = (refl, (refl, refl), refl)
  by_flags c m a true false true b true false h free = (refl, (refl, refl), refl)
  by_flags c m a true false true b false false h free = (refl, (refl, refl), refl)
  by_flags c m a true true false b true true h free = (refl, (refl, refl), refl)
  by_flags c m a true true false b false true h free = (refl, (refl, refl), refl)
  by_flags c m a true false false b true true h free = (refl, (refl, refl), refl)
  by_flags c m a true false false b false true h free = (refl, (refl, refl), refl)
  by_flags c m a true true false b true false h free = (refl, (refl, refl), refl)
  by_flags c m a true true false b false false h free = (refl, (refl, refl), refl)
  by_flags c m a true false false b true false h free = (refl, (refl, refl), refl)
  by_flags c m a true false false b false false h free = (refl, (refl, refl), refl)
  by_flags c m a false false q b true k h free = ground (arith, h.late refl)
  by_flags c m a false true true b true true h free = (refl, (refl, refl), refl)
  by_flags c m a false true true b false true h free = (refl, (refl, refl), refl)
  by_flags c m a false false true b false true h free = (refl, (refl, refl), refl)
  by_flags c m a false true false b true true h free = (refl, (refl, refl), refl)
  by_flags c m a false true false b false true h free = (refl, (refl, refl), refl)
  by_flags c m a false false false b false true h free = (refl, (refl, refl), refl)
  by_flags c m a false true true b true false h free = (h.pending refl refl, (refl, refl), refl)
  by_flags c m a false true true b false false h free = (h.pending refl refl, (refl, refl), refl)
  by_flags c m a false true false b true false h free = (h.pending refl refl, (refl, refl), refl)
  by_flags c m a false true false b false false h free = (h.pending refl refl, (refl, refl), refl)
  by_flags c m a false false true b false false h free = (h.current refl refl, (refl, refl), refl)
  by_flags c m a false false false b false false h free = (h.current refl refl, (refl, refl), refl)

  catch_up-Returns :
      (w : World) → Fresh w → is_locked_up w ≡ false → Returns (steps catch_up w) (Applied w)
  catch_up-Returns w h free =
      by_flags w.config w.message w.applied w.waiting w.to_power w.to_push w.to_publish w.lagged
        w.parked h free

  step-LockedUp : (t : Task) (w : World) → is_locked_up w ≡ true → Returns (step t w) (LockedUp w)
  unfolding step
  step-LockedUp (update_by f) w h = ground arith
  step-LockedUp go_on w h = ground arith
  step-LockedUp publish_settings w h = ground arith
  step-LockedUp config_task w h = ground arith
  step-LockedUp (push_task elapsed) w h = ground arith
  step-LockedUp publish_task w h = ground arith

  steps-LockedUp :
      (ts : List Task) (w : World) → is_locked_up w ≡ true → Returns (steps ts w) (LockedUp w)
  unfolding steps
  steps-LockedUp [] w h = (h, refl)
  steps-LockedUp (t ∷ ts) w h =
      Returns-bind (step t w) _ (LockedUp w) _ (step-LockedUp t w h) λ v (k, e).
        Returns-mono (steps ts v) (LockedUp v) _ (λ u (l, f). (l, f ∙ e)) (steps-LockedUp ts v k)

  -- Whatever has happened since boot, in any interleaving of updates, publications and subscribers,
  -- and whatever `config_task` has missed. If an update waits for `push_task` to read, and that
  -- waits for the lock of the update, then so it stays, whatever runs, and the settings in memory
  -- stay as they are. Otherwise, when the three subscribers then read what they have, an update
  -- that waits goes on, and `config_task` reads once more, it has called `persist` with the
  -- settings in memory, which are the same as before, as is the flash, and no update waits.
  pub steps-Applied :
      (ts later : List Task) (c : Config slot) {w : World}
      → steps ts (booted c) ≡ returns w
      → Returns
          (steps (if is_locked_up w then later else catch_up) w)
          (λ v. if is_locked_up w then LockedUp w v else Applied w v)
  steps-Applied ts later c {w} e = by_case (is_locked_up w) refl
    where
      start : Fresh (booted c)
      start = record {
        pending = λ _ _. refl;
        current = λ _ _. refl;
        late = λ q. absurd (ground arith);
      }

      by_case :
          (b : Bool)
          → is_locked_up w ≡ b
          → Returns
              (steps (if b then later else catch_up) w)
              (λ v. if b then LockedUp w v else Applied w v)
      by_case true h = steps-LockedUp later w h
      by_case false h = catch_up-Returns w (rw e at (steps-Fresh ts (booted c) start)) h
