-- ===== src/Cmd/Names/Laws.antt =====
-- The derived names are identifiers.
use godash.Common.{
  ℕ, ◌≡◌, refl, sym, ap, ◌∙◌, Bool, true, false, [], ◌∷◌, ◌++◌, arith, inl, inr, All, All-append,
  Bool-cases, if_elim,
}
use godash.Cmd.Names.{
  Text, is_digit, is_upper, is_word, is_slug, keep, has_byte, last_segment, needs_prefix, prefixed,
  pb_alias, lower_first, upper_first, to_slug, package_name,
}

-- All bytes are in a class, and the first is there and no digit.
abbrev pub IsName : (ℕ → Bool) → Text → Type 0
IsName p [] = ⊥
IsName p (b ∷ bs) = (is_digit b ≡ false) × All (λ c. p c ≡ true) (b ∷ bs)

keep-All : (p : ℕ → Bool) (s : Text) → All (λ c. p c ≡ true) (keep p s)
unfolding keep
keep-All p [] = tt
keep-All p (b ∷ bs) = elim (Bool-cases (p b)) [
  | inl e ↦ rw e (e, keep-All p bs)
  | inr e ↦ rw e (keep-All p bs)
]

prefixed-IsName :
    (p : ℕ → Bool) (s : Text)
    → p 97 ≡ true
    → p 112 ≡ true
    → All (λ c. p c ≡ true) s
    → IsName p (prefixed s)
unfolding prefixed needs_prefix
prefixed-IsName p [] a b h = (refl, (a, (b, (b, tt))))
prefixed-IsName p (c ∷ cs) a b h =
    if_elim (IsName p) (is_digit c) (97 ∷ 112 ∷ 112 ∷ c ∷ cs) (c ∷ cs)
      (λ e. (refl, (a, (b, (b, h))))) λ e. (e, h)

IsName-append :
    (p : ℕ → Bool) (s t : Text) → IsName p s → All (λ c. p c ≡ true) t → IsName p (s ++ t)
IsName-append p [] t n h = absurd n
IsName-append p (c ∷ cs) t n h = (n.0, All-append (λ c. p c ≡ true) (c ∷ cs) t n.1 h)

-- Whatever the module name, the alias is a Go identifier: it is not empty, has only letters, digits
-- and underscores, and starts with no digit.
pub pb_alias-IsName : (mod_name : Text) → IsName is_word (pb_alias mod_name)
unfolding pb_alias
pb_alias-IsName mod_name =
    IsName-append is_word (prefixed (keep is_word (last_segment mod_name))) (112 ∷ 98 ∷ [])
      (prefixed-IsName is_word (keep is_word (last_segment mod_name)) refl refl
        (keep-All is_word (last_segment mod_name)))
      (refl, (refl, tt))

-- Whatever the display name, and whatever `strings.ToLower` makes of it, the package name is not
-- empty, has only small letters and digits, and starts with a letter.
pub package_name-IsName :
    (to_lower : Text → Text) (app_name : Text) → IsName is_slug (package_name to_lower app_name)
unfolding package_name to_slug
package_name-IsName to_lower app_name =
    prefixed-IsName is_slug (keep is_slug (to_lower app_name)) refl refl
      (keep-All is_slug (to_lower app_name))

has_byte-append : (c : ℕ) (s t : Text) → has_byte c (s ++ c ∷ t) ≡ true
unfolding has_byte
has_byte-append c [] t = ground arith
has_byte-append c (b ∷ bs) t = ground (arith, has_byte-append c bs t)

last_segment_whole : (s : Text) → has_byte 47 s ≡ false → last_segment s ≡ s
unfolding last_segment has_byte
last_segment_whole [] h = refl
last_segment_whole (b ∷ bs) h = ground arith

last_segment-append : (s t : Text) → has_byte 47 t ≡ false → last_segment (s ++ 47 ∷ t) ≡ t
unfolding last_segment
last_segment-append [] t h = rw h refl
last_segment-append (b ∷ bs) t h = rw (has_byte-append 47 bs t) (last_segment-append bs t h)

-- The alias of a module with a path is that of its last segment.
pub pb_alias-append :
    (path last : Text) → has_byte 47 last ≡ false → pb_alias (path ++ 47 ∷ last) ≡ pb_alias last
unfolding pb_alias
pb_alias-append path last h =
    ap (λ s. prefixed (keep is_word s) ++ 112 ∷ 98 ∷ [])
      (last_segment-append path last h ∙ sym (last_segment_whole last h))

-- `upperFirst` undoes `lowerFirst` on a name that starts with a capital letter.
pub upper_first-lower_first :
    (b : ℕ) (bs : Text) → is_upper b ≡ true → upper_first (lower_first (b ∷ bs)) ≡ b ∷ bs
unfolding upper_first lower_first
upper_first-lower_first b bs h = ground arith
