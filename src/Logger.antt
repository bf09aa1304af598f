-- ===== src/Logger.antt =====
-- sw/fw/src/logger.rs: which records are logged, and what a line is made of. A text is a list of
-- characters, by their numbers; the parser of levels is the one of the crate log.
use powersupply.Base.{
  ℕ, ◌/◌, ◌%◌, ◌≡◌, refl, ap, ◌∙◌, Bool, true, false, ◌&&◌, ◌||◌, List, [], ◌∷◌, ◌++◌, Option, none,
  some, Result, ok, err, ◌==◌, if◌then◌else◌,
}

abbrev pub Text : Type 0
Text = List ℕ

pub data Level : Type 0 where
  error warn info debug trace : Level

pub data LevelFilter : Type 0 where
  off : LevelFilter
  up_to : Level → LevelFilter

-- `init_logger_from_env`: the level that is set, by PSU_LOGLEVEL.
unfoldable pub initial_level :
    {E : Type 0} → (Text → Result LevelFilter E) → Option Text → LevelFilter
initial_level from_str none = up_to info
initial_level from_str (some lvl) = elim (from_str lvl) [ ok level ↦ level | err _ ↦ off ]

-- `str::split` at a character, and `str::starts_with`
abbrev onto_first : ℕ → List Text → List Text
onto_first x [] = (x ∷ []) ∷ []
onto_first x (t ∷ ts) = (x ∷ t) ∷ ts

unfoldable pub split : ℕ → Text → List Text
split c [] = [] ∷ []
split c (x ∷ xs) = let rest = split c xs in if x == c then [] ∷ rest else onto_first x rest

unfoldable pub starts_with : Text → Text → Bool
starts_with t [] = true
starts_with [] (x ∷ xs) = false
starts_with (y ∷ ys) (x ∷ xs) = y == x && starts_with ys xs

abbrev pub any_prefix : Text → List Text → Bool
any_prefix t [] = false
any_prefix t (v ∷ vs) = starts_with t v || any_prefix t vs

abbrev pub comma : ℕ
comma = 44

-- The test of `log`, by PSU_LOGTARGETS.
unfoldable pub is_logged : Option Text → Text → Bool
unfolding split
is_logged none target = true
is_logged (some targets) target = any_prefix target (split comma targets)

-- The escape sequence's number of a level's colour.
unfoldable pub color : Level → ℕ
color error = 31
color warn = 33
color info = 32
color debug = 34
color trace = 35

-- What a line shows: seconds and milliseconds, the colour, the level, the target and the message.
pub record Line : Type 0 where
  pub now_s : ℕ
  pub now_ms_sub : ℕ
  pub line_color : ℕ
  pub level : Level
  pub target : Text
  pub args : Text

-- `log`, at so many milliseconds.
unfoldable pub log : Option Text → ℕ → Level → Text → Text → Option Line
unfolding is_logged color
log targets now_ms level target args =
    if is_logged targets target
    then some (record {
      now_s = now_ms / 1000;
      now_ms_sub = now_ms % 1000;
      line_color = color level;
      level = level;
      target = target;
      args = args;
    })
    else none

-- Targets as they are written: the first one, and the others after a comma each.
abbrev pub join : Text → List Text → Text
join v [] = v
join v (w ∷ ws) = v ++ comma ∷ join w ws

abbrev pub NoComma : Text → Type 0
NoComma [] = Unit
NoComma (x ∷ xs) = (x == comma ≡ false) × NoComma xs

abbrev pub AllNoComma : List Text → Type 0
AllNoComma [] = Unit
AllNoComma (v ∷ vs) = NoComma v × AllNoComma vs

split-alone : (v : Text) → NoComma v → split comma v ≡ v ∷ []
unfolding split
split-alone [] h = refl
split-alone (x ∷ xs) (n, h) = rw (n, split-alone xs h) refl

split-append : (v rest : Text) → NoComma v → split comma (v ++ comma ∷ rest) ≡ v ∷ split comma rest
unfolding split
split-append [] rest h = refl
split-append (x ∷ xs) rest (n, h) = rw (n, split-append xs rest h) refl

split-join :
    (v : Text) (vs : List Text) → NoComma v → AllNoComma vs → split comma (join v vs) ≡ v ∷ vs
split-join v [] h k = split-alone v h
split-join v (w ∷ ws) h (k, ks) =
    split-append v (join w ws) h ∙ ap (λ l. v ∷ l) (split-join w ws k ks)

-- A record is logged exactly when its target starts with one of the listed targets, and always when
-- none are listed.
pub is_logged_lem :
    (v : Text) (vs : List Text) (target : Text)
    → NoComma v
    → AllNoComma vs
    → is_logged (some (join v vs)) target ≡ any_prefix target (v ∷ vs)
unfolding is_logged
is_logged_lem v vs target h k = ap (any_prefix target) (split-join v vs h k)
