-- ===== src/Pb/Input/Laws.antt =====
-- How the decoders of pb/core_lite.go read one field, and a sequence of fields.
use godash.Common.{
  inl, inr, Bool-cases, ◌^◌, ==→eq, int_of_int32, ℕ, ◌+◌, ◌-◌, ◌≤◌, ◌<◌, ◌≡◌, refl, sym, ap, subst,
  ◌∙◌, [], ◌∷◌, ◌++◌, ◌==◌, length, take, drop, int_half, length-append, append_assoc, lt→leb,
  le→ltb, arith,
}
use godash.Pb.Runtime.{Bytes, Decoded, decoded, ◌>>=◌, Runtime, IsDocumented}
use godash.Pb.Input.{slice, sub_slice, Cases, read_bytes, set_field, read_message, read_field}
use godash.Pb.Buffer.Laws.{int_field, bytes_field, message_field}
use godash.Pb.Input.Reads.{Reads, Reads-nil, Reads-round, read_round-tag}

take-append : (a b : Bytes) → take (length a) (a ++ b) ≡ a
take-append [] b = refl
take-append (x ∷ a) b = ap (λ xs. x ∷ xs) (take-append a b)

drop-append : (a b : Bytes) → drop (length a) (a ++ b) ≡ b
drop-append [] b = refl
drop-append (x ∷ a) b = drop-append a b

-- Bytes that are there are read.
pub slice-append :
    (l : ℕ) (a rest : Bytes)
    → length a + length rest ≤ l
    → l < int_half
    → slice l (length a, a ++ rest) ≡ decoded (a, rest)
unfolding slice sub_slice
slice-append l a rest fits small =
    let n = length a in
    let post : (l - length (a ++ rest)) + n ≡ l - length rest =
      omega (arith, length-append a rest) in
    rw
      (
        lt→leb int_half n (omega arith),
        post,
        lt→leb int_half (l - length rest) (omega arith),
        le→ltb l (l - length rest) (omega arith),
        take-append a rest,
        drop-append a rest,
      )
      refl

-- A length and as many bytes.
slice_back :
    (r : Runtime)
    → IsDocumented r
    → (l : ℕ) (bs rest : Bytes) → length ((r.encode (length bs) ++ bs) ++ rest) < l
    → l < int_half
    → (r.decode ((r.encode (length bs) ++ bs) ++ rest) >>= slice l) ≡ decoded (bs, rest)
slice_back r d l bs rest fits bound =
    let n = length bs in
    let sizes : length ((r.encode n ++ bs) ++ rest) ≡ (length (r.encode n) + n) + length rest =
      omega (arith, length-append (r.encode n ++ bs) rest, length-append (r.encode n) bs) in
    rw
      (
        append_assoc (r.encode n) bs rest,
        d.decode_encode n (bs ++ rest) (omega (arith, fits, sizes)),
      )
      (slice-append l bs rest (omega (arith, fits, sizes)) bound)

module _ {ℓ} {M : Type ℓ} {r : Runtime} {cases : Cases M} {add_unknown : Bytes → M → M} where
  -- A field behind its tag.
  tagged-Reads :
      IsDocumented r
      → (m m' : M) (tag : ℕ) (value : Bytes) → tag < 128
      → ((l : ℕ) (start rest : Bytes)
          → length (value ++ rest) < l
          → l < int_half
          → read_field r cases add_unknown l m start tag (value ++ rest) ≡ decoded (m', rest))
      → Reads r cases add_unknown m (tag ∷ value) m'
  tagged-Reads d m m' tag value small known = Reads-round m m' tag value λ l rest fits bound.
      read_round-tag r cases add_unknown d l m tag (value ++ rest) small
      ∙ known l (tag ∷ (value ++ rest)) rest (omega (arith, fits)) bound

  number-Reads :
      IsDocumented r
      → (m : M) (tag x v : ℕ) (set : ℕ → M) (decode : Bytes → Decoded (ℕ × Bytes)) → tag < 128
      → ((rest : Bytes) → decode (r.encode v ++ rest) ≡ decoded (x, rest))
      → set 0 ≡ m
      → ((l : ℕ) (start rest : Bytes)
          → read_field r cases add_unknown l m start tag rest ≡ set_field r set (decode rest))
      → Reads r cases add_unknown m (int_field r tag x v) (set x)
  unfolding int_field set_field
  number-Reads d m tag x v set decode small back absent known = elim (Bool-cases (x == 0)) [
    | inl e ↦ rw e (
        subst (λ y. Reads r cases add_unknown m [] y) (sym absent ∙ ap set (sym (==→eq x 0 e)))
          (Reads-nil m))
    | inr e ↦ rw e (
        tagged-Reads d m (set x) tag (r.encode v) small λ l start rest fits bound.
          known l start (r.encode v ++ rest) ∙ ap (set_field r set) (back rest))
  ]

  pub int32-Reads :
      (d : IsDocumented r) (m : M) (tag x : ℕ) (set : ℕ → M)
      → tag < 128
      → x < 2 ^ 32
      → set 0 ≡ m
      → ((l : ℕ) (start rest : Bytes)
          → read_field r cases add_unknown l m start tag rest
            ≡ set_field r set (r.decode_int32 rest))
      → Reads r cases add_unknown m (int_field r tag x (int_of_int32 x)) (set x)
  int32-Reads d m tag x set small bound =
      number-Reads d m tag x (int_of_int32 x) set r.decode_int32 small
        λ rest. d.decode_encode_int32 x rest bound

  pub int64-Reads :
      (d : IsDocumented r) (m : M) (tag x : ℕ) (set : ℕ → M)
      → tag < 128
      → x < 2 ^ 64
      → set 0 ≡ m
      → ((l : ℕ) (start rest : Bytes)
          → read_field r cases add_unknown l m start tag rest
            ≡ set_field r set (r.decode_int64 rest))
      → Reads r cases add_unknown m (int_field r tag x x) (set x)
  int64-Reads d m tag x set small bound =
      number-Reads d m tag x x set r.decode_int64 small λ rest. d.decode_encode_int64 x rest bound

  pub message-Reads {κ} :
      {A : Type κ} (d : IsDocumented r) (m : M) (tag : ℕ) (bs : Bytes) (v : A) (set : A → M)
      (unmarshal : Bytes → Decoded A)
      → tag < 128
      → (length bs < int_half → unmarshal bs ≡ decoded v)
      → ((l : ℕ) (start rest : Bytes)
          → read_field r cases add_unknown l m start tag rest
            ≡ read_message r unmarshal set 2 l rest)
      → Reads r cases add_unknown m (message_field r tag bs) (set v)
  unfolding message_field read_message read_bytes
  message-Reads d m tag bs v set unmarshal small back known =
      tagged-Reads d m (set v) tag (r.encode (length bs) ++ bs) small λ l start rest fits bound.
        let value = r.encode (length bs) ++ bs in
        let sizes : length (value ++ rest)
            ≡ (length (r.encode (length bs)) + length bs) + length rest =
          omega (arith, length-append value rest, length-append (r.encode (length bs)) bs) in
        rw
          (
            known l start (value ++ rest),
            slice_back r d l bs rest fits bound,
            back (omega (arith, fits, sizes)),
          )
          refl

  pub bytes-Reads :
      (d : IsDocumented r) (m : M) (tag : ℕ) (s : Bytes) (set : Bytes → M)
      → tag < 128
      → set [] ≡ m
      → ((l : ℕ) (start rest : Bytes)
          → read_field r cases add_unknown l m start tag rest
            ≡ set_field r set (r.decode rest >>= slice l))
      → Reads r cases add_unknown m (bytes_field r tag s) (set s)
  unfolding bytes_field message_field set_field
  bytes-Reads d m tag [] set small absent known =
      subst (λ y. Reads r cases add_unknown m [] y) (sym absent) (Reads-nil m)
  bytes-Reads d m tag (b ∷ s) set small absent known =
      let bs = b ∷ s in
      tagged-Reads d m (set bs) tag (r.encode (length bs) ++ bs) small λ l start rest fits bound.
        known l start ((r.encode (length bs) ++ bs) ++ rest)
        ∙ ap (set_field r set) (slice_back r d l bs rest fits bound)
