-- ===== src/Cmd/TemplateMeta.antt =====
-- The file `.godash-template`, cmd/godash/template_meta.go, as a text: written by `writeTemplateMeta`
-- and read by `readTemplateMeta` with `readEnvFile` (project.go). Opening and writing it are left out.
pub mod RoundTrip
pub mod Tests
use godash.Common.{
  ℕ, ◌≡◌, Bool, true, false, ◌&&◌, Option, none, some, ltb, length, List, [], ◌∷◌, ◌++◌, map,
  if◌then◌else◌, ◌==◌,
}
use godash.Cmd.Names.{Text}
use godash.Cmd.Services.{is_empty, same_text}
use godash.Cmd.Project.{read_env_file}

pub record TemplateMeta : Type 0 where
  pub remote : Text
  pub version : Text
  pub commit : Text

abbrev pub remote_key : Text
remote_key = 114 ∷ 101 ∷ 109 ∷ 111 ∷ 116 ∷ 101 ∷ []

abbrev pub version_key : Text
version_key = 118 ∷ 101 ∷ 114 ∷ 115 ∷ 105 ∷ 111 ∷ 110 ∷ []

abbrev pub commit_key : Text
commit_key = 99 ∷ 111 ∷ 109 ∷ 109 ∷ 105 ∷ 116 ∷ []

-- One `fmt.Fprintf`, for a field that is not empty.
unfoldable pub setting : Text → Text → Text
setting key [] = []
setting key (b ∷ bs) = (key ++ 61 ∷ b ∷ bs) ++ 10 ∷ []

unfoldable pub write_template_meta : TemplateMeta → Text
write_template_meta m =
    setting remote_key m.remote ++ (setting version_key m.version ++ setting commit_key m.commit)

unfoldable pub cons_line : ℕ → List Text → List Text
cons_line b [] = (b ∷ []) ∷ []
cons_line b (line ∷ lines) = (b ∷ line) ∷ lines

unfoldable pub split_lines : Text → List Text
split_lines [] = []
split_lines (b ∷ bs) = let rest = split_lines bs in if b == 10 then [] ∷ rest else cons_line b rest

unfoldable pub drop_return : Text → Text
drop_return [] = []
drop_return (b ∷ []) = if b == 13 then [] else b ∷ []
drop_return (b ∷ c ∷ cs) = b ∷ drop_return (c ∷ cs)

-- `bufio.MaxScanTokenSize`: a line that fills the buffer is an error of the scanner.
unfoldable pub all_short : List Text → Bool
all_short [] = true
all_short (line ∷ lines) = ltb (length line) 65536 && all_short lines

unfoldable pub text_lines : Text → List Text
text_lines text = map drop_return (split_lines text)

-- The lines of `bufio.Scanner`; none is `sc.Err()`, with which the caller fails.
unfoldable pub scan_lines : Text → Option (List Text)
scan_lines text = if all_short (split_lines text) then some (text_lines text) else none

-- `m[key]`
unfoldable pub value_of : Text → List (Text × Text) → Text
value_of key [] = []
value_of key ((k, v) ∷ rest) = let later = value_of key rest in if same_text key k then v else later

unfoldable pub meta_of : List (Text × Text) → TemplateMeta
meta_of m = record {
  remote = value_of remote_key m;
  version = value_of version_key m;
  commit = value_of commit_key m;
}

-- `readTemplateMeta` of a file that is there; none is an error.
unfoldable pub read_template_meta : Text → Option TemplateMeta
read_template_meta text = elim (scan_lines text) [
  | none ↦ none
  | some lines ↦ some (meta_of (read_env_file lines []))
]
