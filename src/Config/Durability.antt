-- ===== src/Config/Durability.antt =====
-- sw/fw/src/systems/config.rs: the copies of the settings agree, in memory, on flash and as
-- subscribers saw them last.
use powersupply.Base.{
  ◌≡◌, refl, ap, ◌∙◌, true, false, Option, List, [], ◌∷◌, Bool-cases, unwrap_or, Result, ok, err,
  returns, unwrap, ◌>>◌, inl, inr, Ensures, Ensures-bind,
}
use powersupply.Storage.{Slot, IsSaved}
use powersupply.Config.Fields.{Settings, default_settings, settings_eq, settings_eq_sound}
use powersupply.Config.{
  Config, persist, update, publish_immediate, push_round, Call, update_by, publish, push, call, run,
}

module _ (slot : Slot Settings) where
  open slot use {State, load, save, load-save, load-load}

  -- The last message, or the settings at boot if there is none.
  abbrev pub last_published : Settings → List Settings → Settings
  last_published boot [] = boot
  last_published boot (s ∷ _) = s

  -- Memory, flash and the last message agree.
  pub record Agrees (boot : Settings) (c : Config slot) : Type 0 where
    pub saved : IsSaved slot default_settings c.settings c.storage
    pub published : last_published boot c.published ≡ c.settings

  -- The settings that a sequence of calls is to lead to.
  abbrev pub updated : List (Call slot) → Settings → Settings
  updated [] s = s
  updated (update_by f ∷ ks) s = updated ks (f s)
  updated (publish ∷ ks) s = updated ks s
  updated (push _ ∷ ks) s = updated ks s

  abbrev Holds : Settings → Settings → Config slot → Type 0
  Holds boot s c = Agrees boot c × (c.settings ≡ s)

  persist_lem :
      (boot : Settings) (c : Config slot) → Ensures (persist slot c) (Holds boot c.settings)
  unfolding persist
  persist_lem boot c = after (save c.settings c.storage).0 refl
    where
      after :
          (r : Result (Unit {0}) slot.SlotError)
          → (save c.settings c.storage).0 ≡ r
          → Ensures
              (unwrap r
                >> returns (record c {
                  storage = (save c.settings c.storage).1;
                  published = c.settings ∷ c.published;
                }))
              (Holds boot c.settings)
      after (ok _) e = (
        record {
          saved = λ y l.
              ap (λ (o : Option Settings). unwrap_or o default_settings)
                (load-save c.settings c.storage y e l);
          published = refl;
        },
        refl,
      )
      after (err x) e = tt

  update_lem :
      (boot : Settings) (f : Settings → Settings) (c : Config slot)
      → Agrees boot c
      → Ensures (update slot f c) (Holds boot (f c.settings))
  unfolding update
  update_lem boot f c a = elim (Bool-cases (settings_eq c.settings (f c.settings))) [
    | inl same ↦
        let e = settings_eq_sound c.settings (f c.settings) same in
        rw same (record { saved = λ y l. a.saved y l ∙ e; published = a.published ∙ e }, refl)
    | inr new ↦ rw new (persist_lem boot (record c { settings = f c.settings }))
  ]

  call_lem :
      (boot : Settings) (k : Call slot) (c : Config slot)
      → Agrees boot c
      → Ensures (call slot k c) (Holds boot (updated (k ∷ []) c.settings))
  unfolding call publish_immediate push_round
  call_lem boot (update_by f) c a = update_lem boot f c a
  call_lem boot publish c a = (record { saved = a.saved; published = refl }, refl)
  call_lem boot (push true) c a = (record { saved = a.saved; published = refl }, refl)
  call_lem boot (push false) c a = (a, refl)

  updated-cons :
      (k : Call slot) (ks : List (Call slot)) (s : Settings)
      → updated (k ∷ ks) s ≡ updated ks (updated (k ∷ []) s)
  updated-cons (update_by f) ks s = refl
  updated-cons publish ks s = refl
  updated-cons (push b) ks s = refl

  -- From a state in which memory, flash and the last message agree, after any sequence of calls
  -- that does not panic: they agree again, and the settings are those that the updates lead to.
  pub run-Agrees :
      (boot : Settings) (ks : List (Call slot)) (c : Config slot)
      → Agrees boot c
      → Ensures (run slot ks c) (λ c'. Agrees boot c' × (c'.settings ≡ updated ks c.settings))
  unfolding run
  run-Agrees boot [] c a = (a, refl)
  run-Agrees boot (k ∷ ks) c a =
      Ensures-bind (call slot k c) (run slot ks) (Holds boot (updated (k ∷ []) c.settings)) _
        (call_lem boot k c a)
        λ c' h. rw (updated-cons k ks c.settings, ← h.1) (run-Agrees boot ks c' h.0)
