-- ===== src/Cmd/TemplateMeta/RoundTrip.antt =====
-- `.godash-template` of cmd/godash/template_meta.go is read as it was written.
use godash.Common.{
  ◌+◌, ◌<◌, length, length-append, lt→ltb, some, ℕ, ◌≡◌, refl, sym, ap, ◌∙◌, Bool, true, false,
  ◌&&◌, inl, inr, Bool-cases, List, [], ◌∷◌, ◌++◌, append_assoc, append-nil, ◌==◌, All, All-append,
  arith,
}
use godash.Cmd.Names.{Text}
use godash.Cmd.Services.{is_empty, same_text}
use godash.Cmd.Project.{is_space, trim_right, read_env_file}
use godash.Cmd.Project.EnvFile.{trim_right-line, IsKey, IsValue, parse_line-print}
use godash.Cmd.TemplateMeta.{
  TemplateMeta, remote_key, version_key, commit_key, setting, write_template_meta, cons_line,
  split_lines, drop_return, all_short, text_lines, scan_lines, value_of, meta_of,
  read_template_meta,
}

abbrev pub NoBreak : Text → Type 0
NoBreak = All (λ b. (b == 10) ≡ false)

split_lines-line :
    (line rest : Text) → NoBreak line → split_lines (line ++ 10 ∷ rest) ≡ line ∷ split_lines rest
unfolding split_lines cons_line
split_lines-line [] rest h = refl
split_lines-line (b ∷ bs) rest h = rw (h.0, split_lines-line bs rest h.1) refl

tail_of : (b : ℕ) (xs ys : Text) → b ∷ xs ≡ b ∷ ys → xs ≡ ys
tail_of b xs ys e = cc

space_no_return : (b : ℕ) → is_space b ≡ false → (b == 13) ≡ false
space_no_return b h = ground arith

nil_no_cons : (b : ℕ) (bs : Text) → [] ≡ b ∷ bs → ⊥
nil_no_cons b bs e = cc

-- What `trim_right` leaves as it is has no white space at its end.
trimmed :
    (b : ℕ) (bs : Text)
    → trim_right (b ∷ bs) ≡ b ∷ bs
    → ((is_space b && is_empty (trim_right bs)) ≡ false) × (trim_right bs ≡ bs)
unfolding trim_right
trimmed b bs e = elim (Bool-cases (is_space b && is_empty (trim_right bs))) [
  | inl s ↦
      let gone : trim_right (b ∷ bs) ≡ [] = rw (trim_right, s) refl in
      absurd (nil_no_cons b bs (sym gone ∙ e))
  | inr s ↦
      let kept : trim_right (b ∷ bs) ≡ b ∷ trim_right bs = rw (trim_right, s) refl in
      (s, tail_of b (trim_right bs) bs (sym kept ∙ e))
]

and_true : (b : Bool) → (b && true) ≡ false → b ≡ false
and_true true e = cc
and_true false e = refl

-- A line that does not end in white space does not end in a return.
drop_return-trimmed : (line : Text) → trim_right line ≡ line → drop_return line ≡ line
unfolding drop_return trim_right
drop_return-trimmed [] e = refl
drop_return-trimmed (b ∷ []) e =
    rw (space_no_return b (and_true (is_space b) (trimmed b [] e).0)) refl
drop_return-trimmed (b ∷ c ∷ cs) e =
    ap (λ bs. b ∷ bs) (drop_return-trimmed (c ∷ cs) (trimmed b (c ∷ cs) e).1)

-- A value that is set adds its entry.
pushed : Text → Text → List (Text × Text) → List (Text × Text)
pushed key [] out = out
pushed key (b ∷ bs) out = (key, b ∷ bs) ∷ out

-- A key of the file.
record IsPlainKey (k : Text) : Type 0 where
  is_key : IsKey k
  no_break : NoBreak k

-- A value that can be written: one line that `readEnvFile` leaves as it is.
pub record IsSetting (v : Text) : Type 0 where
  pub is_value : IsValue v
  pub no_break : NoBreak v

-- A line that is not too long.
short_line :
    (line : Text) (lines : List Text)
    → length line < 65536
    → all_short (line ∷ lines) ≡ all_short lines
unfolding all_short
short_line line lines h = rw (lt→ltb (length line) 65536 h) refl

split_lines-setting :
    (k rest : Text) (b : ℕ) (bs : Text)
    → IsPlainKey k
    → IsSetting (b ∷ bs)
    → split_lines (setting k (b ∷ bs) ++ rest) ≡ (k ++ 61 ∷ b ∷ bs) ∷ split_lines rest
unfolding setting
split_lines-setting k rest b bs key value =
    ap split_lines (append_assoc (k ++ 61 ∷ b ∷ bs) (10 ∷ []) rest)
    ∙ split_lines-line (k ++ 61 ∷ b ∷ bs) rest
        (All-append (λ c. (c == 10) ≡ false) k (61 ∷ b ∷ bs) key.no_break (refl, value.no_break))

all_short-setting :
    (k v rest : Text)
    → IsPlainKey k
    → IsSetting v
    → (length k + 1) + length v < 65536
    → all_short (split_lines (setting k v ++ rest)) ≡ all_short (split_lines rest)
unfolding setting
all_short-setting k [] rest key value small = refl
all_short-setting k (b ∷ bs) rest key value small =
    ap all_short (split_lines-setting k rest b bs key value)
    ∙ short_line (k ++ 61 ∷ b ∷ bs) (split_lines rest)
        (omega (arith, length-append k (61 ∷ b ∷ bs), small))

read_env_file-setting :
    (k v rest : Text) (out : List (Text × Text))
    → IsPlainKey k
    → IsSetting v
    → read_env_file (text_lines (setting k v ++ rest)) out
      ≡ read_env_file (text_lines rest) (pushed k v out)
unfolding setting pushed text_lines read_env_file
read_env_file-setting k [] rest out key value = refl
read_env_file-setting k (b ∷ bs) rest out key value =
    let line = k ++ 61 ∷ b ∷ bs in
    let lines = split_lines-setting k rest b bs key value in
    let kept : drop_return line ≡ line =
      drop_return-trimmed line (trim_right-line k (b ∷ bs) key.is_key.words value.is_value.right) in
    rw (lines, kept, read_env_file, parse_line-print k (b ∷ bs) key.is_key value.is_value) refl

remote-IsPlainKey : IsPlainKey remote_key
remote-IsPlainKey = record {
  is_key = record { some_bytes = refl; words = (refl, (refl, (refl, (refl, (refl, (refl, tt)))))) };
  no_break = (refl, (refl, (refl, (refl, (refl, (refl, tt))))));
}

version-IsPlainKey : IsPlainKey version_key
version-IsPlainKey = record {
  is_key = record {
    some_bytes = refl;
    words = (refl, (refl, (refl, (refl, (refl, (refl, (refl, tt)))))));
  };
  no_break = (refl, (refl, (refl, (refl, (refl, (refl, (refl, tt)))))));
}

commit-IsPlainKey : IsPlainKey commit_key
commit-IsPlainKey = record {
  is_key = record { some_bytes = refl; words = (refl, (refl, (refl, (refl, (refl, (refl, tt)))))) };
  no_break = (refl, (refl, (refl, (refl, (refl, (refl, tt))))));
}

-- The entries of a file that was written.
written : TemplateMeta → List (Text × Text)
written m =
    pushed commit_key m.commit (pushed version_key m.version (pushed remote_key m.remote []))

read_env_file-write :
    (m : TemplateMeta)
    → IsSetting m.remote
    → IsSetting m.version
    → IsSetting m.commit
    → read_env_file (text_lines (write_template_meta m)) [] ≡ written m
unfolding write_template_meta written text_lines split_lines read_env_file
read_env_file-write m r v c =
    let last = setting commit_key m.commit in
    let first_out = pushed remote_key m.remote [] in
    let second_out = pushed version_key m.version first_out in
    read_env_file-setting remote_key m.remote (setting version_key m.version ++ last) []
      remote-IsPlainKey r
    ∙ read_env_file-setting version_key m.version last first_out version-IsPlainKey v
    ∙ ap (λ text. read_env_file (text_lines text) second_out) (sym (append-nil last))
    ∙ read_env_file-setting commit_key m.commit [] second_out commit-IsPlainKey c

value_of-pushed :
    (r v c : Text)
    → let out = pushed commit_key c (pushed version_key v (pushed remote_key r [])) in
      (value_of remote_key out ≡ r) × (value_of version_key out ≡ v) × (value_of commit_key out ≡ c)
unfolding value_of pushed same_text
value_of-pushed [] [] [] = (refl, refl, refl)
value_of-pushed [] [] (c ∷ cs) = (refl, refl, refl)
value_of-pushed [] (v ∷ vs) [] = (refl, refl, refl)
value_of-pushed [] (v ∷ vs) (c ∷ cs) = (refl, refl, refl)
value_of-pushed (r ∷ rs) [] [] = (refl, refl, refl)
value_of-pushed (r ∷ rs) [] (c ∷ cs) = (refl, refl, refl)
value_of-pushed (r ∷ rs) (v ∷ vs) [] = (refl, refl, refl)
value_of-pushed (r ∷ rs) (v ∷ vs) (c ∷ cs) = (refl, refl, refl)

all_short-write :
    (m : TemplateMeta)
    → IsSetting m.remote
    → IsSetting m.version
    → IsSetting m.commit
    → (length m.remote + 7 < 65536) × (length m.version + 8 < 65536) × (length m.commit + 7 < 65536)
    → all_short (split_lines (write_template_meta m)) ≡ true
unfolding write_template_meta all_short split_lines
all_short-write m r v c small =
    let last = setting commit_key m.commit in
    all_short-setting remote_key m.remote (setting version_key m.version ++ last) remote-IsPlainKey
      r (omega (arith, small.0))
    ∙ all_short-setting version_key m.version last version-IsPlainKey v (omega (arith, small.1))
    ∙ ap (λ text. all_short (split_lines text)) (sym (append-nil last))
    ∙ all_short-setting commit_key m.commit [] commit-IsPlainKey c (omega (arith, small.2))

-- What is written to `.godash-template` is read back without an error, fields that are empty included,
-- if each field is one line without white space around it and without `:=` inside, and with its key
-- and the equals sign shorter than the 65536 bytes of the scanner's buffer.
pub read_template_meta-write_template_meta :
    (m : TemplateMeta)
    → IsSetting m.remote
    → IsSetting m.version
    → IsSetting m.commit
    → (length m.remote + 7 < 65536) × (length m.version + 8 < 65536) × (length m.commit + 7 < 65536)
    → read_template_meta (write_template_meta m) ≡ some m
unfolding read_template_meta scan_lines meta_of written
read_template_meta-write_template_meta m r v c small =
    let e = read_env_file-write m r v c in
    let (p, q, s) = value_of-pushed m.remote m.version m.commit in
    rw (read_template_meta, all_short-write m r v c small, e)
      (λ i. some (record { remote = p i; version = q i; commit = s i }))
