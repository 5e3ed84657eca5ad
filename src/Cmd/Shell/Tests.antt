-- ===== src/Cmd/Shell/Tests.antt =====
-- An argument with a quote and one that is not passed on.
use godash.Common.{◌≡◌, refl, some, List, [], ◌∷◌}
use godash.Cmd.Names.{Text}
use godash.Cmd.Shell.{shell_quote, replace_quotes, dart_define_args}
use godash.Cmd.Shell.Words.{between, words, Chosen, words-dart_define_args}

-- `a'b`
shell_quote_test : shell_quote (97 ∷ 39 ∷ 98 ∷ []) ≡ 39 ∷ 97 ∷ 39 ∷ 92 ∷ 39 ∷ 39 ∷ 98 ∷ 39 ∷ []
unfolding shell_quote replace_quotes
shell_quote_test = refl

-- `--dart-define='` and `x`
abbrev args : List Text
args =
    (45 ∷ 45 ∷ 100 ∷ 97 ∷ 114 ∷ 116 ∷ 45 ∷ 100 ∷ 101 ∷ 102 ∷ 105 ∷ 110 ∷ 101 ∷ 61 ∷ 39 ∷ [])
    ∷ (120 ∷ [])
    ∷ []

words-dart_define_args_example :
    (ws : List Text) × (words between [] (dart_define_args args) ≡ some ws) × Chosen args ws
words-dart_define_args_example = words-dart_define_args args
