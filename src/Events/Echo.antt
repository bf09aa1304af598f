-- ===== src/Events/Echo.antt =====
-- sw/fw/src/systems/events.rs, `publish_task`, with `link_up` and `process_message` of
-- sw/fw/src/systems/net.rs: the settings are published under the topic that the firmware subscribes
-- to. The broker delivers what it is sent under a topic to every subscriber, in order.
use powersupply.Base.{
  ℕ, zero, suc, ◌+◌, ◌≡◌, ◌≢◌, refl, sym, arith, List, [], ◌∷◌, ◌++◌, some, length, ok, Outcome,
  returns, ◌>>=◌, Returns, Returns-mono,
}
use powersupply.Storage.{Slot}
use powersupply.Config.Fields.{Settings, SettingsBuilder, integrate}
use powersupply.Config.{Config, update}
use powersupply.Config.Reboot.{update_branches}

-- A message with all of the settings, as it is parsed again.
abbrev pub full : Settings → SettingsBuilder
full s = record {
  vout_mv = some s.vout_mv;
  iout_ma = some s.iout_ma;
  backoff_ms = some s.backoff_ms;
}

module _ (slot : Slot Settings) where
  open slot use {State, save}

  -- So many messages that the broker delivers, first the first one: each is an update, and what the
  -- update publishes is the last in the broker's queue. The number counts the publications, each of
  -- which follows a write to flash.
  unfoldable pub deliver :
      ℕ → List Settings × Config slot × ℕ → Outcome (List Settings × Config slot × ℕ)
  deliver zero s = returns s
  deliver (suc n) ([], c, w) = returns ([], c, w)
  deliver (suc n) (m ∷ queue, c, w) =
      update slot (λ s. integrate s (full m)) (record c { published = [] }) >>= λ c'.
      deliver n (queue ++ c'.published, c', w + length c'.published)

  -- The configuration after an update that changes it.
  abbrev pub stored : Settings → Config slot → Config slot
  stored m c = record { settings = m; storage = (save m c.storage).1; published = m ∷ [] }

  deliver-changes :
      (n : ℕ) (m : Settings) (queue : List Settings) (c : Config slot) (w : ℕ)
      → ((d : Settings) (st : State) → (save d st).0 ≡ ok tt)
      → c.settings ≢ m
      → deliver (suc n) (m ∷ queue, c, w) ≡ deliver n (queue ++ m ∷ [], stored m c, w + 1)
  unfolding deliver integrate
  deliver-changes n m queue c w saves ne =
      rw
        ((update_branches slot (λ s. integrate s (full m)) (record c { published = [] })).1
          (λ e. ne (sym e)) (saves m c.storage))
        refl

  abbrev pub double : ℕ → ℕ
  double zero = 0
  double (suc n) = suc (suc (double n))

  -- On a storage that always stores: two different settings that are sent one right after the
  -- other, the first of them different from the settings in memory, before the firmware's message of
  -- the first one has come back, are delivered again and again: after any even number of
  -- deliveries the broker's queue is as it was, and every delivery has changed the settings, and
  -- has written and published them.
  pub deliver-double :
      (n : ℕ) (a b : Settings) (c : Config slot) (w : ℕ)
      → ((d : Settings) (st : State) → (save d st).0 ≡ ok tt)
      → a ≢ b
      → c.settings ≢ a
      → Returns
          (deliver (double n) (a ∷ b ∷ [], c, w))
          (λ (queue, _, v). (queue ≡ a ∷ b ∷ []) × (v ≡ w + double n))
  unfolding deliver
  deliver-double zero a b c w saves ne fresh = (refl, omega arith)
  deliver-double (suc n) a b c w saves ne fresh =
      rw
        (
          deliver-changes (suc (double n)) a (b ∷ []) c w saves fresh,
          deliver-changes (double n) b (a ∷ []) (stored a c) (w + 1) saves ne,
        )
        (Returns-mono (deliver (double n) (a ∷ b ∷ [], stored b (stored a c), w + 1 + 1)) _ _
          (λ r (same, more). (same, omega (arith, more)))
          (deliver-double n a b (stored b (stored a c)) (w + 1 + 1) saves ne (λ e. ne (sym e))))
