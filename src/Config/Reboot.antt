-- ===== src/Config/Reboot.antt =====
-- sw/fw/src/systems/config.rs: what an update does on each of its branches, and what a restart
-- of the firmware finds.
use powersupply.Base.{
  ◌≡◌, ◌≢◌, refl, sym, ap, ◌∙◌, false, Option, List, [], ◌∷◌, Bool-cases, inl, inr, unwrap_or,
  Result, ok, err, returns, panics, unwrap, ◌>>=◌, Ensures, Returns, Returns-bind,
  Returns-of-Ensures, Always,
}
use powersupply.Storage.{Slot, IsSaved}
use powersupply.Config.Fields.{
  Settings, default_settings, settings_eq, settings_eq_sound, settings_eq_self,
}
use powersupply.Config.{Config, init, persist, update, Call, update_by, publish, push, call, run}
use powersupply.Config.Durability.{Agrees, updated, run-Agrees}

module _ (slot : Slot Settings) where
  open slot use {State, load, save, load-load}

  ok-injective : {A E : Type 0} (a b : A) → ◌≡◌ {A = Result A E} (ok a) (ok b) → a ≡ b
  ok-injective a b h = cc

  settings_eq_ne : (a b : Settings) → a ≢ b → settings_eq a b ≡ false
  settings_eq_ne a b ne = elim (Bool-cases (settings_eq a b)) [
    | inl same ↦ absurd (ne (settings_eq_sound a b same))
    | inr other ↦ other
  ]

  -- An update that leaves the settings as they are touches neither flash nor subscribers; one that
  -- changes them stores the new settings once, and if that succeeds publishes them once, and if it
  -- fails panics.
  pub update_branches :
      (f : Settings → Settings) (c : Config slot)
      → let (r, st) = save (f c.settings) c.storage in
        (f c.settings ≡ c.settings → update slot f c ≡ returns c)
        × (f c.settings ≢ c.settings
            → r ≡ ok tt
            → update slot f c
              ≡ returns (record {
                settings = f c.settings;
                storage = st;
                published = f c.settings ∷ c.published;
              }))
        × ((e : slot.SlotError) → f c.settings ≢ c.settings → r ≡ err e → update slot f c ≡ panics)
  unfolding update persist
  update_branches f c = (
    (λ e. rw e (rw (settings_eq_self c.settings) refl)),
    (λ ne e. rw (settings_eq_ne c.settings (f c.settings) (λ p. ne (sym p)), e) refl),
    (λ x ne e. rw (settings_eq_ne c.settings (f c.settings) (λ p. ne (sym p)), e) refl),
  )

  -- At boot the settings are those on flash, or the default.
  abbrev FromFlash : State → Config slot → Type 0
  FromFlash st c = Agrees slot c.settings c × IsSaved slot default_settings c.settings st

  default_of : Option Settings → Settings
  default_of y = unwrap_or y default_settings

  init_lem : (st : State) → Ensures (init slot st) (FromFlash st)
  unfolding init default_of
  init_lem st = after (load st).0 refl
    where
      after :
          (r : Result (Option Settings) slot.SlotError)
          → (load st).0 ≡ r
          → Ensures
              (unwrap r >>= λ y.
                returns (record { settings = default_of y; storage = (load st).1; published = [] }))
              (FromFlash st)
      after (ok y) e = (
        record { saved = λ z l. ap default_of (load-load st y z e l); published = refl },
        λ z l. ap default_of (ok-injective z y (sym l ∙ e)),
      )
      after (err x) e = tt

  -- What the storage has to do for a restart to be judged: no call on it fails.
  pub record IsReliable : Type 0 where
    pub saves : (d : Settings) (s : State) → (save d s).0 ≡ ok tt
    pub loads : (s : State) → (y : Option Settings) × ((load s).0 ≡ ok y)

  module _ (reliable : IsReliable) where
    init-returns : (st : State) → Returns (init slot st) Always
    unfolding init
    init-returns st = let (y, e) = reliable.loads st in rw e tt

    update-returns : (f : Settings → Settings) (c : Config slot) → Returns (update slot f c) Always
    unfolding update persist
    update-returns f c = elim (Bool-cases (settings_eq c.settings (f c.settings))) [
      | inl same ↦ rw same tt
      | inr new ↦ rw (new, reliable.saves (f c.settings) c.storage) tt
    ]

    call-returns : (k : Call slot) (c : Config slot) → Returns (call slot k c) Always
    unfolding call
    call-returns (update_by f) c = update-returns f c
    call-returns publish c = tt
    call-returns (push b) c = tt

    run-returns : (ks : List (Call slot)) (c : Config slot) → Returns (run slot ks c) Always
    unfolding run
    run-returns [] c = tt
    run-returns (k ∷ ks) c =
        Returns-bind (call slot k c) (run slot ks) Always Always (call-returns k c)
          λ c' _. run-returns ks c'

    -- With a reliable storage: boot, run any calls, and boot again from what is on flash. Nothing
    -- panics, and the second boot finds the settings that the updates of the first had led to.
    pub reboot_restores :
        (ks : List (Call slot)) (st : State)
        → Returns (init slot st) (λ c.
          Returns (run slot ks c) (λ c'.
            Returns (init slot c'.storage) (λ c''. c''.settings ≡ updated slot ks c.settings)))
    reboot_restores ks st =
        Returns-of-Ensures (init slot st) (FromFlash st) _ (init_lem st) (init-returns st) λ c h.
          Returns-of-Ensures (run slot ks c) _ _ (run-Agrees slot c.settings ks c h.0)
            (run-returns ks c)
            λ c' h'.
              Returns-of-Ensures (init slot c'.storage) (FromFlash c'.storage) _
                (init_lem c'.storage) (init-returns c'.storage)
                λ c'' h''.
                  let (y, e) = reliable.loads c'.storage in sym (h''.1 y e) ∙ h'.0.saved y e ∙ h'.1
