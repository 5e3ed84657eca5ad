-- ===== src/Cmd/Project.antt =====
-- The settings of a project, cmd/godash/project.go: `readEnvFile` over the lines of a file, and the
-- choice of the godash checkout in `loadProjectEnvAt`. A line is a list of bytes without other white
-- space than ASCII's; files, paths and provisioning are parameters.
pub mod EnvFile
pub mod Checkout
pub mod Tests
use godash.Common.{
  ℕ, ◌≡◌, Bool, true, false, not, ◌&&◌, ◌||◌, Option, none, some, List, [], ◌∷◌, ◌++◌,
  if◌then◌else◌, leb, ◌==◌,
}
use godash.Cmd.Names.{Text}
use godash.Cmd.Services.{is_empty}

-- White space of ASCII.
abbrev pub is_space : ℕ → Bool
is_space b = (leb 9 b && leb b 13) || (b == 32)

unfoldable pub trim_left : Text → Text
trim_left [] = []
trim_left (b ∷ bs) = let rest = trim_left bs in if is_space b then rest else b ∷ bs

unfoldable pub trim_right : Text → Text
trim_right [] = []
trim_right (b ∷ bs) =
    let rest = trim_right bs in if is_space b && is_empty rest then [] else b ∷ rest

-- `strings.TrimSpace`
pub trim_space : Text → Text
trim_space s = trim_right (trim_left s)

-- `s[:i]` and `s[i+1:]` for the index of the first `=`, if there is one.
pub split_equals : Text → Option (Text × Text)
split_equals [] = none
split_equals (b ∷ bs) =
    let rest = split_equals bs in
    if b == 61 then some ([], bs) else elim rest [ none ↦ none | some (k, v) ↦ some (b ∷ k, v) ]

-- `s[1:]` if `s` starts with `=`.
unfoldable pub after_equals : Text → Option Text
after_equals [] = none
after_equals (b ∷ bs) = if b == 61 then some bs else none

-- The split at the byte `b`, if there is one, and else the split of the rest behind it.
unfoldable pub split_at : Option Text → ℕ → Option (Text × Text) → Option (Text × Text)
split_at (some v) b rest = some ([], v)
split_at none b none = none
split_at none b (some (k, v)) = some (b ∷ k, v)

-- `s[:i]` and `s[i+2:]` for the index of the first `:=`, if there is one.
unfoldable pub split_assign : Text → Option (Text × Text)
split_assign [] = none
split_assign (b ∷ bs) =
    let rest = split_assign bs in split_at (if b == 58 then after_equals bs else none) b rest

pub starts_with_hash : Text → Bool
starts_with_hash [] = false
starts_with_hash (b ∷ bs) = b == 35

pub trim_pair : Text × Text → Text × Text
trim_pair (k, v) = (trim_space k, trim_space v)

-- The entry of a line that is not blank and no comment.
pub entry : Text → Option (Text × Text)
entry line = elim (split_assign line) [
  | some kv ↦ some (trim_pair kv)
  | none ↦ elim (split_equals line) [ none ↦ none | some kv ↦ some (trim_pair kv) ]
]

-- One turn of the loop of `readEnvFile`.
pub parse_line : Text → Option (Text × Text)
parse_line text =
    let line = trim_space text in
    if is_empty line || starts_with_hash line then none else entry line

-- The entries of a file, the later ones of a key first.
unfoldable pub read_env_file : List Text → List (Text × Text) → List (Text × Text)
read_env_file [] out = out
read_env_file (line ∷ rest) out =
    read_env_file rest (elim (parse_line line) [ none ↦ out | some kv ↦ kv ∷ out ])

-- What `detectGodashDep` finds.
pub data Dependency : Type 0 where
  by_path by_version not_found : Dependency

abbrev pub is_path : Dependency → Bool
is_path by_path = true
is_path by_version = false
is_path not_found = false

abbrev pub is_version : Dependency → Bool
is_version by_path = false
is_version by_version = true
is_version not_found = false

pub data Resolved : Type 0 where
  provision_failed not_a_module : Resolved
  checkout : Text → Resolved

-- The first that is set: the override, GODASH_PATH of custom.mk, that of the environment, `../godash`.
pub first_set : Text → Option Text → Text → Text
first_set override custom environment = if not (is_empty override) then override else elim custom [
  | some c ↦
      if not (is_empty c)
      then c
      else if not (is_empty environment)
      then environment
      else 46 ∷ 46 ∷ 47 ∷ 103 ∷ 111 ∷ 100 ∷ 97 ∷ 115 ∷ 104 ∷ []
  | none ↦
      if not (is_empty environment)
      then environment
      else 46 ∷ 46 ∷ 47 ∷ 103 ∷ 111 ∷ 100 ∷ 97 ∷ 115 ∷ 104 ∷ []
]

-- `absolute` makes a path absolute in the project, `has_godash_module` looks into it, and `provisioned`
-- is what `provisionGodash` returns: none if it fails.
module _ (absolute : Text → Text) (has_godash_module : Text → Bool)
    (provisioned : Option Text) where
  -- The check for a checkout, after provisioning.
  pub accept : Dependency → Text → Resolved
  accept dep path =
      if has_godash_module path
      then checkout path
      else if is_version dep
      then checkout []
      else not_a_module

  pub resolve : Dependency → Text → Resolved
  resolve dep path =
      if is_path dep && not (has_godash_module path)
      then elim provisioned [
        | none ↦ provision_failed
        | some p ↦ accept dep (if is_empty p then path else p)
      ]
      else accept dep path

  -- The part of `loadProjectEnvAt` that sets `GodashPath`.
  pub godash_path : Text → Option Text → Text → Dependency → Resolved
  godash_path override custom environment dep =
      resolve dep (absolute (first_set override custom environment))
