-- ===== src/Cmd/Shell/Words.antt =====
-- How a shell splits what cmd/godash/build.go quotes.
use godash.Common.{
  ◌≡◌, ◌⊎◌, Bool, true, false, ◌&&◌, ◌||◌, ap₂, ==-refl, refl, sym, ap, ◌∙◌, inl, inr, Bool-cases,
  Option, none, some, List, [], ◌∷◌, ◌++◌, map, append_assoc, append-nil, if◌then◌else◌, ◌==◌,
  ==→eq,
}
use godash.Cmd.Names.{Text}
use godash.Cmd.Arguments.{has_prefix}
use godash.Cmd.Shell.{
  replace_quotes, shell_quote, is_dart_define, flags_of, join_words, spaced, dart_define_args,
}

pub data Place : Type 0 where
  between plain quoted escaped : Place

unfoldable pub ended : Text → Option (List Text) → Option (List Text)
ended word none = none
ended word (some ws) = some (word ∷ ws)

-- The words of a text as a POSIX shell splits it, with the word so far: blanks, quotes and backslashes.
-- `none` is a quote or backslash without an end, or a byte outside quotes that is none of these.
unfoldable pub words : Place → Text → Text → Option (List Text)
words between word [] = some []
words plain word [] = some (word ∷ [])
words quoted word [] = none
words escaped word [] = none
words between word (b ∷ bs) =
    let blank = words between [] bs in
    let quote = words quoted [] bs in
    let escape = words escaped [] bs in
    if b == 32 then blank else if b == 39 then quote else if b == 92 then escape else none
words plain word (b ∷ bs) =
    let blank = words between [] bs in
    let quote = words quoted word bs in
    let escape = words escaped word bs in
    if b == 32
    then ended word blank
    else if b == 39
    then quote
    else if b == 92
    then escape
    else none
words quoted word (b ∷ bs) =
    let end = words plain word bs in
    let more = words quoted (word ++ b ∷ []) bs in if b == 39 then end else more
words escaped word (b ∷ bs) = words plain (word ++ b ∷ []) bs

-- `--dart-define=` and `--dart-define-from-file=`
abbrev pub define_option : Text
define_option = 45 ∷ 45 ∷ 100 ∷ 97 ∷ 114 ∷ 116 ∷ 45 ∷ 100 ∷ 101 ∷ 102 ∷ 105 ∷ 110 ∷ 101 ∷ 61 ∷ []

abbrev pub define_file_option : Text
define_file_option =
    45 ∷ 45 ∷ 100 ∷ 97 ∷ 114 ∷ 116 ∷ 45 ∷ 100 ∷ 101 ∷ 102 ∷ 105 ∷ 110 ∷ 101 ∷ 45 ∷ 102 ∷ 114 ∷ 111
    ∷ 109 ∷ 45 ∷ 102 ∷ 105 ∷ 108 ∷ 101 ∷ 61 ∷ []

-- The text is one of the two options with a value.
abbrev pub IsDefine : Text → Type 0
IsDefine arg =
    ((value : Text) × (arg ≡ define_option ++ value))
    ⊎ ((value : Text) × (arg ≡ define_file_option ++ value))

-- The second list has those of the first that are such options, in their order.
pub data Chosen : List Text → List Text → Type 0 where
  chosen_nil : Chosen [] []
  chosen :
      (arg : Text) (args ws : List Text)
      → IsDefine arg
      → Chosen args ws
      → Chosen (arg ∷ args) (arg ∷ ws)
  passed :
      (arg : Text) (args ws : List Text) → ¬ IsDefine arg → Chosen args ws → Chosen (arg ∷ args) ws

-- The arguments that are passed on.
unfoldable pub defines : List Text → List Text
defines [] = []
defines (arg ∷ args) = let rest = defines args in if is_dart_define arg then arg ∷ rest else rest

and_true : (a b : Bool) → (a && b) ≡ true → (a ≡ true) × (b ≡ true)
and_true true true h = (refl, refl)
and_true true false h = cc
and_true false b h = cc

or_true : (a b : Bool) → (a || b) ≡ true → (a ≡ true) ⊎ (b ≡ true)
or_true true b h = inl refl
or_true false b h = inr h

or_false : (a b : Bool) → (a || b) ≡ false → (a ≡ false) × (b ≡ false)
or_false true b h = cc
or_false false b h = (refl, h)

has_prefix-inv : (s p : Text) → has_prefix s p ≡ true → (rest : Text) × (s ≡ p ++ rest)
unfolding has_prefix
has_prefix-inv s [] h = (s, refl)
has_prefix-inv [] (c ∷ p) h = cc
has_prefix-inv (b ∷ s) (c ∷ p) h =
    let (d, e) = and_true (b == c) (has_prefix s p) h in
    let (rest, k) = has_prefix-inv s p e in (rest, ap₂ (λ x xs. x ∷ xs) (==→eq b c d) k)

has_prefix-append : (p rest : Text) → has_prefix (p ++ rest) p ≡ true
unfolding has_prefix
has_prefix-append [] rest = refl
has_prefix-append (c ∷ p) rest = rw (==-refl c, has_prefix-append p rest) refl

is_dart_define-IsDefine : (arg : Text) → is_dart_define arg ≡ true → IsDefine arg
unfolding is_dart_define
is_dart_define-IsDefine arg h = elim (or_true _ _ h) [
  | inl k ↦ inl (has_prefix-inv arg define_option k)
  | inr k ↦ inr (has_prefix-inv arg define_file_option k)
]

not_IsDefine : (arg : Text) → is_dart_define arg ≡ false → ¬ IsDefine arg
unfolding is_dart_define
not_IsDefine arg h (inl (value, e)) =
    let k = (or_false (has_prefix arg define_option) (has_prefix arg define_file_option) h).0 in
    cc (ap (λ s. has_prefix s define_option) e, has_prefix-append define_option value, k)
not_IsDefine arg h (inr (value, e)) =
    let k = (or_false (has_prefix arg define_option) (has_prefix arg define_file_option) h).1 in
    cc (ap (λ s. has_prefix s define_file_option) e, has_prefix-append define_file_option value, k)

defines-Chosen : (args : List Text) → Chosen args (defines args)
unfolding defines
defines-Chosen [] = chosen_nil
defines-Chosen (arg ∷ args) = elim (Bool-cases (is_dart_define arg)) [
  | inl e ↦ rw e (chosen arg args _ (is_dart_define-IsDefine arg e) (defines-Chosen args))
  | inr e ↦ rw e (passed arg args _ (not_IsDefine arg e) (defines-Chosen args))
]

words-replace_quotes :
    (word s rest : Text)
    → words quoted word (replace_quotes s ++ 39 ∷ rest) ≡ words plain (word ++ s) rest
unfolding words replace_quotes
words-replace_quotes word [] rest = ap (λ w. words plain w rest) (sym (append-nil word))
words-replace_quotes word (b ∷ bs) rest = elim (Bool-cases (b == 39)) [
  | inl e ↦
      let joined : (word ++ 39 ∷ []) ++ bs ≡ word ++ b ∷ bs =
        append_assoc word (39 ∷ []) bs ∙ ap (λ x. word ++ x ∷ bs) (sym (==→eq b 39 e)) in
      rw (replace_quotes, e)
        (words-replace_quotes (word ++ 39 ∷ []) bs rest ∙ ap (λ w. words plain w rest) joined)
  | inr e ↦
      rw (replace_quotes, e)
        (rw (words, e)
          (words-replace_quotes (word ++ b ∷ []) bs rest
            ∙ ap (λ w. words plain w rest) (append_assoc word (b ∷ []) bs)))
]

-- Whatever a text has, a shell takes it for one word, which is that text.
words-shell_quote : (s rest : Text) → words between [] (shell_quote s ++ rest) ≡ words plain s rest
unfolding words shell_quote
words-shell_quote s rest =
    ap (words quoted []) (append_assoc (replace_quotes s) (39 ∷ []) rest)
    ∙ words-replace_quotes [] s rest

flags_of-map : (args : List Text) → flags_of args ≡ map shell_quote (defines args)
unfolding flags_of defines
flags_of-map [] = refl
flags_of-map (arg ∷ args) = elim (Bool-cases (is_dart_define arg)) [
  | inl e ↦ rw (flags_of, defines, e) (ap (λ ws. shell_quote arg ∷ ws) (flags_of-map args))
  | inr e ↦ rw (flags_of, defines, e) (flags_of-map args)
]

words-join_words :
    (w : Text) (ws : List Text)
    → words between [] (join_words (map shell_quote (w ∷ ws))) ≡ some (w ∷ ws)
unfolding join_words words ended
words-join_words w [] =
    ap (words between []) (sym (append-nil (shell_quote w))) ∙ words-shell_quote w []
words-join_words w (v ∷ vs) =
    words-shell_quote w (32 ∷ join_words (map shell_quote (v ∷ vs)))
    ∙ ap (ended w) (words-join_words v vs)

words-spaced : (ws : List Text) → words between [] (spaced (map shell_quote ws)) ≡ some ws
unfolding spaced words
words-spaced [] = refl
words-spaced (w ∷ ws) = words-join_words w ws

-- Whatever the arguments are, a shell splits the text that is added to its command into exactly those
-- that begin with `--dart-define=` or `--dart-define-from-file=`, in their order, and no byte of them
-- stands outside quotes unescaped.
pub words-dart_define_args :
    (args : List Text)
    → (ws : List Text) × (words between [] (dart_define_args args) ≡ some ws) × Chosen args ws
unfolding dart_define_args
words-dart_define_args args = (
  defines args,
  ap (λ ws. words between [] (spaced ws)) (flags_of-map args) ∙ words-spaced (defines args),
  defines-Chosen args,
)
