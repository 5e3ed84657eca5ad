-- ===== src/Cmd/Arguments/Tests.antt =====
-- Flag sets that know no flag's value: each consumes the first argument, or leaves all.
use godash.Common.{◌≡◌, ◌≢◌, refl, ap, List, [], ◌∷◌, arith, All}
use godash.Cmd.Names.{Text}
use godash.Cmd.Arguments.{Parsed, left, out_of_fuel, dash, loop}
use godash.Cmd.Arguments.Rounds.{Consumes, loop-dash, loop-ends}

abbrev leave_all : List Text → Parsed
leave_all args = left args

abbrev consume_one : List Text → Parsed
consume_one [] = left []
consume_one (arg ∷ args) = left args

consume_one-Consumes : Consumes consume_one
consume_one-Consumes arg args xs ne e h = (arg, [], ap (λ ys. arg ∷ ys) (same h))
  where
    same : left args ≡ left xs → args ≡ xs
    same p = cc

-- `-x` and `y`.
abbrev flag_and_name : List Text
flag_and_name = (45 ∷ 120 ∷ []) ∷ (121 ∷ []) ∷ []

no_dash : All (λ arg. arg ≢ dash) flag_and_name
no_dash = ((λ e. cc), ((λ e. cc), tt))

loop-dash_example : loop leave_all 9 [] (dash ∷ flag_and_name) ≡ out_of_fuel
loop-dash_example = loop-dash leave_all 9 [] flag_and_name (λ args. refl)

loop-ends_example : loop consume_one 2 [] flag_and_name ≢ out_of_fuel
loop-ends_example =
    loop-ends consume_one 2 [] flag_and_name consume_one-Consumes no_dash (omega arith)
