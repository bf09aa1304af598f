-- ===== src/Watchdog/Rounds.antt =====
-- The mask against the list of the tickets fed since the hardware watchdog was fed last.
use powersupply.Base.{
  ℕ, zero, suc, ◌≤◌, ◌<◌, ◌≡◌, refl, ap, ap₂, ◌∙◌, inl, inr, Bool, true, false, ◌&&◌, ◌||◌, List,
  [], ◌∷◌, ◌++◌, arith, ◌==◌, if◌then◌else◌, Bool-cases, length, get_or, set, length-set,
  Bool-eq_of_iff, sym, get_or-set_self, get_or-set_ne, get_or-replicate, returns, Returns,
  Returns-bind,
}
use powersupply.Watchdog.{Inner, Mask, mask_bits, empty_mask, all_below, feed, run}

abbrev pub contains : List ℕ → ℕ → Bool
contains [] j = false
contains (i ∷ es) j = i == j || contains es j

-- Every ticket below `n` is in the list.
abbrev pub covers : ℕ → List ℕ → Bool
covers zero es = true
covers (suc n) es = contains es n && covers n es

abbrev pub any_true : List Bool → Bool
any_true [] = false
any_true (b ∷ bs) = b || any_true bs

abbrev pub AllBelow : ℕ → List ℕ → Type 0
AllBelow n [] = Unit
AllBelow n (i ∷ es) = (i < n) × AllBelow n es

contains-tail :
    (i j : ℕ) (es h : List ℕ) → contains (i ∷ h) j ≡ true → contains (i ∷ es ++ h) j ≡ true
contains-tail i j [] h c = c
contains-tail i j (e ∷ es) h c = ground (arith, contains-tail i j es h c)

contains-move : (i j : ℕ) (es h : List ℕ) → contains (es ++ i ∷ h) j ≡ contains (i ∷ es ++ h) j
contains-move i j [] h = refl
contains-move i j (e ∷ es) h = ground (arith, contains-move i j es h)

-- The mask marks exactly the tickets of the history.
pub record Marks (s : Inner) (h : List ℕ) : Type 0 where
  pub full : length s.mask ≡ 16
  pub few : s.count ≤ 16
  pub bits : (j : ℕ) → get_or s.mask j false ≡ contains h j

covers-ext :
    (n : ℕ) (a b : List ℕ) → ((j : ℕ) → contains a j ≡ contains b j) → covers n a ≡ covers n b
covers-ext zero a b e = refl
covers-ext (suc n) a b e = ground (arith, e n, covers-ext n a b e)

covers_mono :
    (n : ℕ) (a b : List ℕ)
    → ((j : ℕ) → contains a j ≡ true → contains b j ≡ true)
    → covers n a ≡ true
    → covers n b ≡ true
covers_mono zero a b e h = refl
covers_mono (suc n) a b e h = ground (arith, e n, covers_mono n a b e)

all_below_get : (n : ℕ) (m : Mask) (i : ℕ) → all_below n m ≡ true → i < n → get_or m i false ≡ true
unfolding all_below
all_below_get zero m i h lt = absurd (omega arith)
all_below_get (suc n) [] i h lt = cc
all_below_get (suc n) (b ∷ m) zero h lt = ground arith
all_below_get (suc n) (b ∷ m) (suc i) h lt = ground (arith, all_below_get n m i)

all_below_intro :
    (n : ℕ) (m : Mask) → ((i : ℕ) → i < n → get_or m i false ≡ true) → all_below n m ≡ true
unfolding all_below
all_below_intro zero m h = refl
all_below_intro (suc n) [] h = ground (arith, h 0)
all_below_intro (suc n) (b ∷ m) h =
    ground (arith, h 0, all_below_intro n m (λ i lt. h (suc i) (omega arith)))

pub covers_get : (n : ℕ) (es : List ℕ) (i : ℕ) → covers n es ≡ true → i < n → contains es i ≡ true
covers_get zero es i h lt = absurd (omega arith)
covers_get (suc n) es i h lt = elim (Bool-cases (i == n)) [
  | inl same ↦ let e : i ≡ n = ground arith in rw e (ground arith)
  | inr other ↦ ground (arith, covers_get n es i)
]

covers_intro : (n : ℕ) (es : List ℕ) → ((i : ℕ) → i < n → contains es i ≡ true) → covers n es ≡ true
covers_intro zero es h = refl
covers_intro (suc n) es h = ground (arith, h n, covers_intro n es (λ i lt. h i (omega arith)))

-- On a mask that marks a history, the code's test is whether the history covers the tickets.
all_below-covers :
    (n : ℕ) (m : Mask) (h : List ℕ)
    → ((j : ℕ) → get_or m j false ≡ contains h j)
    → all_below n m ≡ covers n h
all_below-covers n m h e =
    Bool-eq_of_iff _ _ (λ p. covers_intro n h (λ i lt. sym (e i) ∙ all_below_get n m i p lt))
      (λ p. all_below_intro n m (λ i lt. e i ∙ covers_get n h i p lt))

-- The abstract watchdog: the tickets fed in the current round.
abbrev pub spec_feed : ℕ → ℕ → List ℕ → Bool × List ℕ
spec_feed n i h = if covers n (i ∷ h) then (true, []) else (false, i ∷ h)

abbrev pub spec_run : ℕ → List ℕ → List ℕ → List Bool × List ℕ
spec_run n [] h = ([], h)
spec_run n (i ∷ es) h =
    let (fed, h') = spec_feed n i h in let (flags, last) = spec_run n es h' in (fed ∷ flags, last)

pub empty_mask-bits : (j : ℕ) → get_or empty_mask j false ≡ false
empty_mask-bits j = get_or-replicate mask_bits j false

set-bits :
    (m : Mask) (i j : ℕ) (h : List ℕ)
    → i < length m
    → get_or m j false ≡ contains h j
    → get_or (set m i true) j false ≡ contains (i ∷ h) j
set-bits m i j h lt e = elim (Bool-cases (i == j)) [
  | inl same ↦ let e' : i ≡ j = ground arith in ground (arith, get_or-set_self m i true false)
  | inr other ↦ ground (arith, get_or-set_ne m i j true false)
]

-- With its two bounds met, `feed` does not panic.
feed-eq :
    (i : ℕ) (s : Inner)
    → length s.mask ≡ 16
    → s.count ≤ 16
    → i < 16
    → feed i s
      ≡ returns (
          if all_below s.count (set s.mask i true)
          then (true, record s { mask = empty_mask })
          else (false, record s { mask = set s.mask i true }))
unfolding feed
feed-eq i s full few lt = ground (arith, length-set s.mask i true)

-- What the code has answered and left behind, by what the abstract watchdog does.
abbrev pub Follows {ℓ} : {A : Type ℓ} → ℕ → A × List ℕ → A × Inner → Type ℓ
Follows n (out, h) (out', s) = (out' ≡ out) × Marks s h × (s.count ≡ n)

pub feed-Follows :
    (n i : ℕ) (s : Inner) (h : List ℕ)
    → s.count ≡ n
    → i < n
    → Marks s h
    → Returns (feed i s) (Follows n (spec_feed n i h))
feed-Follows n i s h e lt m = elim (Bool-cases (covers n (i ∷ h))) [
  | inl c ↦
      rw (feed-eq i s m.full m.few (omega arith), test, c)
        (refl, record { full = refl; few = m.few; bits = empty_mask-bits }, e)
  | inr c ↦
      rw (feed-eq i s m.full m.few (omega arith), test, c)
        (refl, record { full = length-set s.mask i true ∙ m.full; few = m.few; bits = marked }, e)
]
  where
    marked : (j : ℕ) → get_or (set s.mask i true) j false ≡ contains (i ∷ h) j
    marked j = set-bits s.mask i j h (omega arith) (m.bits j)

    test : all_below s.count (set s.mask i true) ≡ covers n (i ∷ h)
    test =
        all_below-covers s.count (set s.mask i true) (i ∷ h) marked ∙ ap (λ k. covers k (i ∷ h)) e

-- A sequence of feeds answers as the abstract watchdog does, and never panics.
pub run-Follows :
    (n : ℕ) (es : List ℕ) (s : Inner) (h : List ℕ)
    → s.count ≡ n
    → AllBelow n es
    → Marks s h
    → Returns (run es s) (Follows n (spec_run n es h))
unfolding run
run-Follows n [] s h e b m = (refl, m, e)
run-Follows n (i ∷ es) s h e b m =
    Returns-bind (feed i s) _ (Follows n (spec_feed n i h)) _ (feed-Follows n i s h e b.0 m) λ r p.
      Returns-bind (run es r.1) _ (Follows n (spec_run n es (spec_feed n i h).1)) _
        (run-Follows n es r.1 (spec_feed n i h).1 p.2 b.1 p.1)
        λ q p'. (ap₂ ◌∷◌ p.0 p'.0, p'.1, p'.2)

-- The abstract watchdog feeds the hardware exactly when a round is complete.
pub spec_run-covers :
    (n : ℕ) (es h : List ℕ) → covers n h ≡ false → any_true (spec_run n es h).0 ≡ covers n (es ++ h)
spec_run-covers n [] h c = sym c
spec_run-covers n (i ∷ es) h c = elim (Bool-cases (covers n (i ∷ h))) [
  | inl d ↦ rw d (sym (covers_mono n (i ∷ h) (i ∷ es ++ h) (λ j. contains-tail i j es h) d))
  | inr d ↦ rw d (spec_run-covers n es (i ∷ h) d ∙ covers-ext n _ _ (λ j. contains-move i j es h))
]

contains-append : (es h : List ℕ) (j : ℕ) → contains es j ≡ true → contains (es ++ h) j ≡ true
contains-append [] h j c = cc
contains-append (i ∷ es) h j c = ground (arith, contains-append es h j)

-- However far the round has come: when every ticket feeds once more, the hardware is fed.
pub spec_run-live :
    (n : ℕ) (es h : List ℕ) → 0 < n → covers n es ≡ true → any_true (spec_run n es h).0 ≡ true
spec_run-live zero es h p c = elim p [ ]
spec_run-live (suc n) [] h p c = cc
spec_run-live (suc n) (i ∷ es) h p c = elim (Bool-cases (covers (suc n) (i ∷ h))) [
  | inl d ↦ rw d refl
  | inr d ↦ rw d (
      spec_run-covers (suc n) es (i ∷ h) d
      ∙ covers_mono (suc n) (i ∷ es) (es ++ i ∷ h)
          (λ j q. contains-move i j es h ∙ contains-append (i ∷ es) h j q) c)
]
