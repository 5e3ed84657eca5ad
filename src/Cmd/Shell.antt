-- ===== src/Cmd/Shell.antt =====
-- What cmd/godash/build.go hands to a shell: `shellQuote` and `dartDefineArgs`.
pub mod Words
pub mod Tests
use godash.Common.{ℕ, Bool, ◌||◌, List, [], ◌∷◌, ◌++◌, if◌then◌else◌, ◌==◌}
use godash.Cmd.Names.{Text}
use godash.Cmd.Arguments.{has_prefix}

-- `strings.ReplaceAll(s, "'", "'\\''")`
unfoldable pub replace_quotes : Text → Text
replace_quotes [] = []
replace_quotes (b ∷ bs) =
    let rest = replace_quotes bs in if b == 39 then 39 ∷ 92 ∷ 39 ∷ 39 ∷ rest else b ∷ rest

unfoldable pub shell_quote : Text → Text
shell_quote s = 39 ∷ (replace_quotes s ++ 39 ∷ [])

-- `--dart-define=` or `--dart-define-from-file=`
unfoldable pub is_dart_define : Text → Bool
is_dart_define arg =
    has_prefix arg
      (45 ∷ 45 ∷ 100 ∷ 97 ∷ 114 ∷ 116 ∷ 45 ∷ 100 ∷ 101 ∷ 102 ∷ 105 ∷ 110 ∷ 101 ∷ 61 ∷ [])
    || has_prefix arg (
        45 ∷ 45 ∷ 100 ∷ 97 ∷ 114 ∷ 116 ∷ 45 ∷ 100 ∷ 101 ∷ 102 ∷ 105 ∷ 110 ∷ 101 ∷ 45 ∷ 102 ∷ 114
        ∷ 111 ∷ 109 ∷ 45 ∷ 102 ∷ 105 ∷ 108 ∷ 101 ∷ 61 ∷ [])

-- The loop over the arguments.
unfoldable pub flags_of : List Text → List Text
flags_of [] = []
flags_of (arg ∷ args) =
    let rest = flags_of args in if is_dart_define arg then shell_quote arg ∷ rest else rest

-- `strings.Join(flags, " ")`
unfoldable pub join_words : List Text → Text
join_words [] = []
join_words (w ∷ []) = w
join_words (w ∷ v ∷ ws) = w ++ 32 ∷ join_words (v ∷ ws)

unfoldable pub spaced : List Text → Text
spaced [] = []
spaced (w ∷ ws) = 32 ∷ join_words (w ∷ ws)

unfoldable pub dart_define_args : List Text → Text
dart_define_args args = spaced (flags_of args)
