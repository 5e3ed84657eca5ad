-- ===== src/Cmd/Arguments.antt =====
-- The arguments of the wasm test runner, cmd/go_js_wasm_exec/parse.go: `gentleParse`, with the flag set
-- of the runtime as a parameter. The loop runs on fuel, one for each round.
pub mod Rounds
pub mod Tests
use godash.Common.{
  ℕ, zero, suc, ◌+◌, ◌-◌, ◌≡◌, Bool, true, false, not, ◌&&◌, ◌||◌, Option, none, some, List, [],
  ◌∷◌, ◌++◌, if◌then◌else◌, ltb, ◌==◌, length, get_elem?,
}
use godash.Cmd.Names.{Text}
use godash.Cmd.Services.{same_text}

-- How `flagset.Parse` ends: the flag that is not defined, another error, or the arguments left.
pub data Parsed : Type 0 where
  not_defined : Text → Parsed
  failed : Text → Parsed
  left : List Text → Parsed

pub data Outcome : Type 0 where
  returned : List Text → Outcome
  error : Text → Outcome
  panicked out_of_fuel : Outcome

-- What a round comes to: it collects arguments and goes on with the rest, or the function ends, with
-- what it collected before in front of what it returns.
pub data Round : Type 0 where
  goes_on : List Text → List Text → Round
  ends : List Text → Round
  fails : Text → Round
  panics : Round

unfoldable pub has_prefix : Text → Text → Bool
has_prefix s [] = true
has_prefix [] (p ∷ ps) = false
has_prefix (b ∷ bs) (p ∷ ps) = (b == p) && has_prefix bs ps

-- `"-"`, `"--"` and `"="`
abbrev pub dash : Text
dash = 45 ∷ []

abbrev pub dashes : Text
dashes = 45 ∷ 45 ∷ []

-- The negated condition of the inner loop.
pub is_pulled : Text → Text → Bool
is_pulled pull arg = same_text arg pull || (has_prefix arg pull && has_prefix arg (pull ++ 61 ∷ []))

-- The inner loop: the argument that is pulled and those behind it, or none where the code panics.
pub pull_from : Text → List Text → Option (Text × List Text)
pull_from pull [] = none
pull_from pull (arg ∷ args) =
    let rest = pull_from pull args in if is_pulled pull arg then some (arg, args) else rest

-- Whether the last argument that `Parse` consumed is `--`.
pub ate_dashes : List Text → List Text → Bool
ate_dashes next args =
    if ltb (length args) (length next)
    then elim (get_elem? next (length next - length args - 1)) [
      | none ↦ false
      | some last ↦ same_text last dashes
    ]
    else false

module _ (parse : List Text → Parsed) where
  -- The rest of a round whose first argument starts with a dash.
  pub parsed_round : List Text → Round
  parsed_round next = elim (parse next) [
    | not_defined pull ↦ elim (pull_from pull next) [
      | none ↦ panics
      | some (arg, args) ↦ goes_on (arg ∷ []) args
    ]
    | failed message ↦ fails message
    | left args ↦ if ate_dashes next args then ends (dashes ∷ args) else goes_on [] args
  ]

  pub round : Text → List Text → Round
  round arg args =
      if not (has_prefix arg dash) then goes_on (arg ∷ []) args else parsed_round (arg ∷ args)

  pub loop : ℕ → List Text → List Text → Outcome
  loop n r [] = returned r
  loop zero r (arg ∷ args) = out_of_fuel
  loop (suc n) r (arg ∷ args) = elim (round arg args) [
    | goes_on collected next ↦ loop n (r ++ collected) next
    | ends collected ↦ returned (r ++ collected)
    | fails message ↦ error message
    | panics ↦ panicked
  ]

  pub gentle_parse : ℕ → List Text → Outcome
  gentle_parse fuel args = loop fuel [] args
