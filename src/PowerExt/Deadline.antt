-- ===== src/PowerExt/Deadline.antt =====
-- sw/fw/src/systems/power_ext.rs: the earliest of the deadlines that are set.
use powersupply.Base.{
  ℕ, ◌≤◌, ◌≡◌, refl, ◌⊎◌, inl, inr, Option, none, some, List, [], ◌∷◌, arith, ltb, if◌then◌else◌,
  unwrap_option, Ensures, Returns, Always,
}

-- `if *res > d { *res = d }`
abbrev earlier : ℕ → ℕ → ℕ
earlier res d = if ltb d res then d else res

-- `iter.flatten()` passes over what is `None`.
earliest_from : Option ℕ → List (Option ℕ) → Option ℕ
earliest_from res [] = res
earliest_from res (none ∷ ds) = earliest_from res ds
earliest_from none (some d ∷ ds) = earliest_from (some d) ds
earliest_from (some res) (some d ∷ ds) = earliest_from (some (earlier res d)) ds

unfoldable pub earliest_deadline : List (Option ℕ) → Option ℕ
unfolding earliest_from
earliest_deadline ds = earliest_from none ds

-- No deadline of the list is earlier.
abbrev pub NoneBefore : ℕ → List (Option ℕ) → Type 0
NoneBefore t [] = Unit
NoneBefore t (none ∷ ds) = NoneBefore t ds
NoneBefore t (some d ∷ ds) = (t ≤ d) × NoneBefore t ds

abbrev pub IsOneOf : ℕ → List (Option ℕ) → Type 0
IsOneOf t [] = ⊥
IsOneOf t (d ∷ ds) = (d ≡ some t) ⊎ IsOneOf t ds

abbrev pub AllNone : List (Option ℕ) → Type 0
AllNone [] = Unit
AllNone (d ∷ ds) = (d ≡ none) × AllNone ds

-- What the answer is to the deadlines.
abbrev pub Earliest : List (Option ℕ) → Option ℕ → Type 0
Earliest ds none = AllNone ds
Earliest ds (some t) = IsOneOf t ds × NoneBefore t ds

-- With a deadline at hand there is an answer: that one, or one of the list.
abbrev FromSome : ℕ → List (Option ℕ) → Type 0
FromSome res ds =
    (t : ℕ) × (earliest_from (some res) ds ≡ some t)
    × (t ≤ res)
    × NoneBefore t ds
    × ((t ≡ res) ⊎ IsOneOf t ds)

FromSome-cons :
    (res d : ℕ) (ds : List (Option ℕ)) → FromSome (earlier res d) ds → FromSome res (some d ∷ ds)
unfolding earliest_from
FromSome-cons res d ds (t, p, le, nb, o) = (t, p, ground arith, (ground arith, nb), ground arith)

earliest_from-FromSome : (res : ℕ) (ds : List (Option ℕ)) → FromSome res ds
unfolding earliest_from
earliest_from-FromSome res [] = (res, refl, omega arith, tt, inl refl)
earliest_from-FromSome res (none ∷ ds) =
    let (t, p, le, nb, o) = earliest_from-FromSome res ds in (t, p, le, nb, ground arith)
earliest_from-FromSome res (some d ∷ ds) =
    FromSome-cons res d ds (earliest_from-FromSome (earlier res d) ds)

Earliest-none : (ds : List (Option ℕ)) (r : Option ℕ) → Earliest ds r → Earliest (none ∷ ds) r
Earliest-none ds none h = (refl, h)
Earliest-none ds (some t) h = (inr h.0, h.1)

Earliest-some :
    (d : ℕ) (ds : List (Option ℕ))
    → FromSome d ds
    → Earliest (some d ∷ ds) (earliest_from (some d) ds)
Earliest-some d ds (t, p, le, nb, o) = rw p (ground arith, (le, nb))

-- For every list of deadlines: the answer is none only if none is set, and otherwise it is one that
-- is set and than which none is earlier.
pub earliest_deadline-Earliest : (ds : List (Option ℕ)) → Earliest ds (earliest_deadline ds)
unfolding earliest_deadline
earliest_deadline-Earliest [] = tt
earliest_deadline-Earliest (none ∷ ds) = Earliest-none ds _ (earliest_deadline-Earliest ds)
earliest_deadline-Earliest (some d ∷ ds) = Earliest-some d ds (earliest_from-FromSome d ds)

pub earliest_deadline-NoneBefore :
    (ds : List (Option ℕ)) → Ensures (unwrap_option (earliest_deadline ds)) (λ d. NoneBefore d ds)
earliest_deadline-NoneBefore ds = by_answer (earliest_deadline ds) (earliest_deadline-Earliest ds)
  where
    by_answer : (o : Option ℕ) → Earliest ds o → Ensures (unwrap_option o) (λ d. NoneBefore d ds)
    by_answer none h = tt
    by_answer (some d) h = h.1

-- One deadline that is set is enough for the `unwrap`.
pub earliest_deadline-returns :
    (d : ℕ) (ds : List (Option ℕ))
    → Returns (unwrap_option (earliest_deadline (some d ∷ ds))) Always
unfolding earliest_deadline
earliest_deadline-returns d ds = let (t, p, _, _, _) = earliest_from-FromSome d ds in rw p tt
