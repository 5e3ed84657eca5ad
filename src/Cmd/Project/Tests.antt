-- ===== src/Cmd/Project/Tests.antt =====
-- Concrete settings.
use godash.Common.{◌≡◌, refl, false, Bool, none, some, [], ◌∷◌, ◌++◌, ◌==◌}
use godash.Cmd.Names.{Text}
use godash.Cmd.Project.{
  by_path, parse_line, godash_path, trim_left, trim_right, trim_space, split_assign, split_at,
  after_equals, split_equals, starts_with_hash, trim_pair, entry,
}
use godash.Cmd.Project.Checkout.{IsSound, godash_path-IsSound}
use godash.Cmd.Project.EnvFile.{IsKey, IsValue, parse_line-print}

-- `AB`, and `x=y` behind it.
abbrev key : Text
key = 65 ∷ 66 ∷ []

abbrev value : Text
value = 120 ∷ 61 ∷ 121 ∷ []

key-IsKey : IsKey key
key-IsKey = record { some_bytes = refl; words = (refl, (refl, tt)) }

value-IsValue : IsValue value
unfolding trim_left trim_right split_assign split_at after_equals
value-IsValue = record { left = refl; right = refl; plain = refl }

parse_line-print_example : parse_line (key ++ 61 ∷ value) ≡ some (key, value)
parse_line-print_example = parse_line-print key value key-IsKey value-IsValue

-- A value with `:=` inside is cut there: `A=b:=c` is the key `A=b` with the value `c`.
parse_line-assign :
    parse_line (65 ∷ 61 ∷ 98 ∷ 58 ∷ 61 ∷ 99 ∷ []) ≡ some (65 ∷ 61 ∷ 98 ∷ [], 99 ∷ [])
unfolding parse_line entry trim_pair starts_with_hash trim_space trim_left trim_right split_assign
    split_at after_equals split_equals
parse_line-assign = refl

abbrev has_module : Text → Bool
has_module [] = false
has_module (b ∷ bs) = b == 47

godash_path-IsSound_example :
    IsSound has_module by_path (godash_path (λ p. p) has_module (some (47 ∷ [])) [] none [] by_path)
godash_path-IsSound_example =
    godash_path-IsSound (λ p. p) has_module (some (47 ∷ [])) [] none [] by_path
