-- ===== src/Cmd/Names/Tests.antt =====
-- Concrete module and display names.
use godash.Common.{◌≡◌, refl, [], ◌∷◌, ◌++◌}
use godash.Cmd.Names.{
  Text, is_word, is_slug, pb_alias, lower_first, upper_first, package_name, keep, prefixed,
  needs_prefix, last_segment, has_byte,
}
use godash.Cmd.Names.Laws.{
  IsName, pb_alias-IsName, package_name-IsName, pb_alias-append, upper_first-lower_first,
}

-- `a.b/9-c`
abbrev dotted : Text
dotted = 97 ∷ 46 ∷ 98 ∷ 47 ∷ 57 ∷ 45 ∷ 99 ∷ []

-- `app9cpb`
pb_alias-dotted : pb_alias dotted ≡ 97 ∷ 112 ∷ 112 ∷ 57 ∷ 99 ∷ 112 ∷ 98 ∷ []
unfolding pb_alias keep prefixed needs_prefix last_segment has_byte
pb_alias-dotted = refl

pb_alias-IsName_example : IsName is_word (pb_alias dotted)
pb_alias-IsName_example = pb_alias-IsName dotted

package_name-IsName_example : IsName is_slug (package_name (λ s. s) dotted)
package_name-IsName_example = package_name-IsName (λ s. s) dotted

pb_alias-append_test : pb_alias ((97 ∷ []) ++ 47 ∷ 98 ∷ []) ≡ pb_alias (98 ∷ [])
unfolding has_byte
pb_alias-append_test = pb_alias-append (97 ∷ []) (98 ∷ []) refl

upper_first-lower_first_test : upper_first (lower_first (69 ∷ 99 ∷ [])) ≡ 69 ∷ 99 ∷ []
upper_first-lower_first_test = upper_first-lower_first 69 (99 ∷ []) refl
