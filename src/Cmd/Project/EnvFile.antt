-- ===== src/Cmd/Project/EnvFile.antt =====
-- A setting is read as it was written.
use godash.Common.{
  ℕ, ◌≡◌, refl, ap, ap₂, ◌∙◌, true, false, none, some, [], ◌∷◌, ◌++◌, ◌==◌, arith, All,
}
use godash.Cmd.Names.{Text, is_word}
use godash.Cmd.Services.{is_empty}
use godash.Cmd.Project.{
  is_space, trim_left, trim_right, trim_space, split_equals, split_assign, split_at,
  starts_with_hash, trim_pair, entry, parse_line,
}

-- A key is not empty and has only letters, digits and underscores.
pub record IsKey (k : Text) : Type 0 where
  pub some_bytes : is_empty k ≡ false
  pub words : All (λ b. is_word b ≡ true) k

-- A value has no white space around it, and no `:=` inside.
pub record IsValue (v : Text) : Type 0 where
  pub left : trim_left v ≡ v
  pub right : trim_right v ≡ v
  pub plain : split_assign v ≡ none

word_no_space : (b : ℕ) → is_word b ≡ true → is_space b ≡ false
word_no_space b h = ground arith

word_no_equals : (b : ℕ) → is_word b ≡ true → (b == 61) ≡ false
word_no_equals b h = ground arith

word_no_colon : (b : ℕ) → is_word b ≡ true → (b == 58) ≡ false
word_no_colon b h = ground arith

word_no_hash : (b : ℕ) → is_word b ≡ true → (b == 35) ≡ false
word_no_hash b h = ground arith

pub trim_right-line :
    (k v : Text)
    → All (λ b. is_word b ≡ true) k
    → trim_right v ≡ v
    → trim_right (k ++ 61 ∷ v) ≡ k ++ 61 ∷ v
unfolding trim_right
trim_right-line [] v h e = ap (λ r. 61 ∷ r) e
trim_right-line (b ∷ bs) v h e =
    rw (word_no_space b h.0) (ap (λ r. b ∷ r) (trim_right-line bs v h.1 e))

trim_right-key : (k : Text) → All (λ b. is_word b ≡ true) k → trim_right k ≡ k
unfolding trim_right
trim_right-key [] h = refl
trim_right-key (b ∷ bs) h = rw (word_no_space b h.0) (ap (λ r. b ∷ r) (trim_right-key bs h.1))

trim_space-key : (k : Text) → All (λ b. is_word b ≡ true) k → trim_space k ≡ k
unfolding trim_space trim_left
trim_space-key [] h = trim_right-key [] tt
trim_space-key (b ∷ bs) h = rw (word_no_space b h.0) (trim_right-key (b ∷ bs) h)

split_equals-line :
    (k v : Text) → All (λ b. is_word b ≡ true) k → split_equals (k ++ 61 ∷ v) ≡ some (k, v)
unfolding split_equals
split_equals-line [] v h = refl
split_equals-line (b ∷ bs) v h = rw (word_no_equals b h.0, split_equals-line bs v h.1) refl

split_assign-line :
    (k v : Text)
    → All (λ b. is_word b ≡ true) k
    → split_assign v ≡ none
    → split_assign (k ++ 61 ∷ v) ≡ none
unfolding split_assign split_at
split_assign-line [] v h e = rw e refl
split_assign-line (b ∷ bs) v h e = rw (word_no_colon b h.0, split_assign-line bs v h.1 e) refl

trim_space-line :
    (b : ℕ) (bs v : Text)
    → All (λ c. is_word c ≡ true) (b ∷ bs)
    → trim_right v ≡ v
    → trim_space ((b ∷ bs) ++ 61 ∷ v) ≡ (b ∷ bs) ++ 61 ∷ v
unfolding trim_space trim_left
trim_space-line b bs v h e = rw (word_no_space b h.0) (trim_right-line (b ∷ bs) v h e)

entry_of_equals :
    (line : Text) (kv : Text × Text)
    → split_assign line ≡ none
    → split_equals line ≡ some kv
    → entry line ≡ some (trim_pair kv)
unfolding entry
entry_of_equals line kv e f = rw (entry, e, f) refl

parse_line_of_entry :
    (text : Text) (b : ℕ) (bs : Text)
    → trim_space text ≡ b ∷ bs
    → (b == 35) ≡ false
    → parse_line text ≡ entry (b ∷ bs)
unfolding parse_line starts_with_hash
parse_line_of_entry text b bs e h = rw (e, h) refl

trim_pair-line :
    (k v : Text) → All (λ b. is_word b ≡ true) k → IsValue v → trim_pair (k, v) ≡ (k, v)
unfolding trim_pair trim_space
trim_pair-line k v h value =
    ap₂ (λ x y. (x, y)) (trim_space-key k h) (ap trim_right value.left ∙ value.right)

-- The line `KEY=VALUE` is read as that entry, if the key has only letters, digits and underscores and
-- the value has no white space around it and no `:=` inside.
pub parse_line-print : (k v : Text) → IsKey k → IsValue v → parse_line (k ++ 61 ∷ v) ≡ some (k, v)
parse_line-print [] v key value = absurd (true_ne_false key.some_bytes)
  where
    true_ne_false : true ≡ false → ⊥
    true_ne_false e = cc
parse_line-print (b ∷ bs) v key value =
    parse_line_of_entry ((b ∷ bs) ++ 61 ∷ v) b (bs ++ 61 ∷ v)
      (trim_space-line b bs v key.words value.right) (word_no_hash b key.words.0)
    ∙ entry_of_equals ((b ∷ bs) ++ 61 ∷ v) (b ∷ bs, v)
        (split_assign-line (b ∷ bs) v key.words value.plain)
        (split_equals-line (b ∷ bs) v key.words)
    ∙ ap some (trim_pair-line (b ∷ bs) v key.words value)
