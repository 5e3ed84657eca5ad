-- ===== src/Pb/Buffer/Laws.antt =====
-- What the writers of pb/core_lite.go leave in a buffer with room for it, and how many bytes that is.
use godash.Common.{
  ℕ, ◌+◌, ◌-◌, ◌≡◌, refl, sym, ap, subst, true, inl, inr, some, [], ◌∷◌, ◌++◌, if◌then◌else◌,
  lt→ltb, leb, ◌==◌, le→leb, Bool-cases, length, take, length-append, append_assoc, arith,
}
use godash.Pb.Runtime.{Bytes, Runtime, IsDocumented}
use godash.Pb.Buffer.{
  Writer, ◌then◌, put, put_byte, zeros, marshal_with, put_varint, put_number, put_bytes,
  put_message, size_number, size_bytes, size_message,
}

-- The writer puts these bytes before those that are there, wherever there is room for them.
pub record Writes (w : Writer) (bs : Bytes) : Type 0 where
  pub fills : (i : ℕ) (out : Bytes) → w (i + length bs, out) ≡ some (i, bs ++ out)

put_fills : (s : Bytes) (i : ℕ) (out : Bytes) → put s (i + length s, out) ≡ some (i, s ++ out)
unfolding put
put_fills s i out =
    let room : leb (length s) (i + length s) ≡ true =
      le→leb (length s) (i + length s) (omega arith) in
    let left : (i + length s) - length s ≡ i = omega arith in rw (room, left) refl

pub put-Writes : (s : Bytes) → Writes (put s) s
put-Writes s = record { fills = put_fills s }

pub then-Writes :
    {v w : Writer} {a b : Bytes} → Writes v a → Writes w b → Writes (v then w) (b ++ a)
then-Writes {v} {w} {a} {b} hv hw = record {
  fills = λ i out.
      let at : i + length (b ++ a) ≡ (i + length b) + length a = omega (arith, length-append b a) in
      rw (at, ◌then◌, hv.fills (i + length b) out, hw.fills i (a ++ out), append_assoc) refl;
}

-- A writer that writes nothing.
pub some-Writes : Writes some []
some-Writes = record { fills = λ i out. ap (λ n. some (n, out)) (omega arith) }

take-length : (bs : Bytes) → take (length bs) (bs ++ []) ≡ bs
take-length [] = refl
take-length (b ∷ bs) = ap (λ x. b ∷ x) (take-length bs)

-- A buffer of the size that was written is filled exactly.
pub marshal_with-Writes :
    (w : Writer) (bs : Bytes) (size : ℕ)
    → Writes w bs
    → size ≡ length bs
    → marshal_with w size ≡ some bs
unfolding marshal_with zeros
marshal_with-Writes w bs size h e =
    let filled : w (length bs, []) ≡ some (0, bs ++ []) =
      subst (λ n. w (n, []) ≡ some (0, bs ++ [])) (omega arith) (h.fills 0 []) in
    let start : w (size, []) ≡ some (0, bs ++ []) =
      subst (λ n. w (n, []) ≡ some (0, bs ++ [])) (sym e) filled in
    let all : size - 0 ≡ length bs = omega (arith, e) in
    rw (marshal_with, start, all, take-length bs) refl

-- The wire format: a field's tag, then its value, its length first if it is a sequence of bytes; a
-- field with the zero value is left out.
module _ (r : Runtime) where
  unfoldable pub int_field : ℕ → ℕ → ℕ → Bytes
  int_field tag x v = if x == 0 then [] else tag ∷ r.encode v

  unfoldable pub message_field : ℕ → Bytes → Bytes
  message_field tag bs = tag ∷ (r.encode (length bs) ++ bs)

  unfoldable pub bytes_field : ℕ → Bytes → Bytes
  bytes_field tag [] = []
  bytes_field tag (b ∷ bs) = message_field tag (b ∷ bs)

  pub put_number-Writes : (tag x v : ℕ) → Writes (put_number r tag x v) (int_field tag x v)
  unfolding put_number put_varint put_byte int_field
  put_number-Writes tag x v = elim (Bool-cases (x == 0)) [
    | inl e ↦ rw e (record { fills = λ i out. rw (put_number, e) (some-Writes.fills i out) })
    | inr e ↦
        let both = then-Writes (put-Writes (r.encode v)) (put-Writes (tag ∷ [])) in
        rw e (record { fills = λ i out. rw (put_number, e) (both.fills i out) })
  ]

  pub put_bytes-Writes : (tag : ℕ) (s : Bytes) → Writes (put_bytes r tag s) (bytes_field tag s)
  unfolding put_bytes put_varint put_byte bytes_field message_field
  put_bytes-Writes tag [] = record { fills = λ i out. some-Writes.fills i out }
  put_bytes-Writes tag (b ∷ s) =
      let n = length (b ∷ s) in
      let both = then-Writes (put-Writes (b ∷ s)) (put-Writes (r.encode n)) in
      let all = then-Writes both (put-Writes (tag ∷ [])) in
      record { fills = λ i out. rw (put_bytes, lt→ltb 0 n (omega arith)) (all.fills i out) }

  pub put_message-Writes :
      (tag : ℕ) (w : Writer) (bs : Bytes)
      → Writes w bs
      → Writes (put_message r tag w) (message_field tag bs)
  unfolding put_message put_varint put_byte message_field
  put_message-Writes tag w bs h = record {
    fills = λ i out.
        let e = r.encode (length bs) in
        let k = i + length (tag ∷ e) in
        let total = i + length (message_field tag bs) in
        let at : k + length bs ≡ total = omega (arith, length-append e bs) in
        let start : w (total, out) ≡ some (k, bs ++ out) =
          subst (λ x. w (x, out) ≡ some (k, bs ++ out)) at (h.fills k out) in
        let written : total - k ≡ length bs = omega (arith, at) in
        let both = then-Writes (put-Writes e) (put-Writes (tag ∷ [])) in
        rw (put_message, start, written, append_assoc) (both.fills i (bs ++ out));
  }

  module _ (d : IsDocumented r) where
    pub length-int_field : (tag x v : ℕ) → size_number r x v ≡ length (int_field tag x v)
    unfolding size_number int_field
    length-int_field tag x v = elim (Bool-cases (x == 0)) [
      | inl e ↦ rw (e) refl
      | inr e ↦ rw (e) (omega (arith, d.length_encode v))
    ]

    pub length-message_field :
        (tag : ℕ) (bs : Bytes) → size_message r (length bs) ≡ length (message_field tag bs)
    unfolding size_message message_field
    length-message_field tag bs =
        omega (arith, length-append (r.encode (length bs)) bs, d.length_encode (length bs))

    pub length-bytes_field : (tag : ℕ) (s : Bytes) → size_bytes r s ≡ length (bytes_field tag s)
    unfolding size_bytes bytes_field message_field
    length-bytes_field tag [] = refl
    length-bytes_field tag (b ∷ s) =
        rw (size_bytes, lt→ltb 0 (length (b ∷ s)) (omega arith)) omega
          (
            arith,
            length-append (r.encode (length (b ∷ s))) (b ∷ s),
            d.length_encode (length (b ∷ s)),
          )
