-- ===== src/Cmd/Names.antt =====
-- Names that cmd/godash derives: the import alias and the variable names of wiring_gen.go, and the
-- package name of scaffold.go. A string is the list of its bytes. A regular expression of the form
-- `[^...]+` whose matches are deleted keeps the bytes in the class.
pub mod Laws
pub mod Tests
use godash.Common.{
  ℕ, ◌+◌, ◌-◌, ◌≡◌, Bool, true, false, ◌&&◌, ◌||◌, List, [], ◌∷◌, ◌++◌, if◌then◌else◌, leb, ◌==◌,
}

abbrev pub Text : Type 0
Text = List ℕ

abbrev pub is_digit : ℕ → Bool
is_digit b = leb 48 b && leb b 57

abbrev pub is_lower : ℕ → Bool
is_lower b = leb 97 b && leb b 122

abbrev pub is_upper : ℕ → Bool
is_upper b = leb 65 b && leb b 90

-- `[A-Za-z0-9_]`
abbrev pub is_word : ℕ → Bool
is_word b = (is_upper b || is_lower b) || (is_digit b || (b == 95))

-- `[a-z0-9]`
abbrev pub is_slug : ℕ → Bool
is_slug b = is_lower b || is_digit b

pub keep : (ℕ → Bool) → Text → Text
keep p [] = []
keep p (b ∷ bs) = let rest = keep p bs in if p b then b ∷ rest else rest

unfoldable pub has_byte : ℕ → Text → Bool
has_byte c [] = false
has_byte c (b ∷ bs) = (b == c) || has_byte c bs

-- The part behind `strings.LastIndex(s, "/")`, or all of it.
pub last_segment : Text → Text
last_segment [] = []
last_segment (b ∷ bs) =
    let rest = last_segment bs in if has_byte 47 bs then rest else if b == 47 then bs else b ∷ bs

-- `s == "" || (s[0] >= '0' && s[0] <= '9')`
pub needs_prefix : Text → Bool
needs_prefix [] = true
needs_prefix (b ∷ bs) = is_digit b

-- `"app" + s` for a string that is no identifier yet.
pub prefixed : Text → Text
prefixed s = if needs_prefix s then 97 ∷ 112 ∷ 112 ∷ s else s

pub pb_alias : Text → Text
pb_alias mod_name = prefixed (keep is_word (last_segment mod_name)) ++ 112 ∷ 98 ∷ []

-- `lowerFirst`, of a valid UTF-8 string.
pub lower_first : Text → Text
lower_first [] = []
lower_first (b ∷ bs) = if is_upper b then (b + 32) ∷ bs else b ∷ bs

-- `upperFirst`, of a valid UTF-8 string.
pub upper_first : Text → Text
upper_first [] = []
upper_first (b ∷ bs) = if is_lower b then (b - 32) ∷ bs else b ∷ bs

-- `strings.ToLower` is the runtime's.
module _ (to_lower : Text → Text) where
  pub to_slug : Text → Text
  to_slug s = keep is_slug (to_lower s)

  pub package_name : Text → Text
  package_name app_name = prefixed (to_slug app_name)
