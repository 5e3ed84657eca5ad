-- ===== src/Pb/Input.antt =====
-- The loop that every `UnmarshalVT` of pb/core_lite.go is, and how it reads a field. The position in
-- the input is the number of bytes read, so that what is left of them stands for the index.
pub mod Laws
pub mod Total
pub mod Reads
pub mod Unknown
use godash.Common.{
  ℕ, zero, suc, ◌+◌, ◌-◌, ◌/◌, ◌%◌, ◌^◌, ◌≡◌, Bool, ◌||◌, Option, none, some, List, [], ◌∷◌,
  if◌then◌else◌, ltb, leb, ◌==◌, length, take, drop, int_half,
}
use godash.Pb.Runtime.{
  Bytes, Decoded, failed, decoded, out_of_bounds, out_of_fuel, ◌>>=◌, Runtime, end_group,
  illegal_tag, wrong_wire_type, invalid_length, unexpected_eof,
}

-- `dAtA[iNdEx:iNdEx+n]` and the bytes behind it, without a check: an `int` is negative from 2^63 on,
-- and the sum of two that are not negative does not wrap to one that is not.
unfoldable pub sub_slice : ℕ → ℕ → Bytes → Decoded (Bytes × Bytes)
sub_slice l n rest =
    let post_index = (l - length rest) + n in
    if leb int_half n || (leb int_half post_index || ltb l post_index)
    then out_of_bounds
    else decoded (take n rest, drop n rest)

-- The checks before the slice, then the slice.
unfoldable pub slice : ℕ → ℕ × Bytes → Decoded (Bytes × Bytes)
slice l (n, rest) =
    let post_index = (l - length rest) + n in
    if leb int_half n
    then failed invalid_length
    else if leb int_half post_index
    then failed invalid_length
    else if ltb l post_index
    then failed unexpected_eof
    else sub_slice l n rest

-- The cases of a message's switch, for a field's number and wire type, the message so far, the length
-- of the input and the bytes behind the tag; none is the default case.
abbrev pub Cases {ℓ} : Type ℓ → Type ℓ
Cases M = ℕ → ℕ → M → ℕ → Bytes → Option (Decoded (M × Bytes))

module _ (r : Runtime) where
  unfoldable pub read_int32 : ℕ → Bytes → Decoded (ℕ × Bytes)
  read_int32 wire_type rest =
      if wire_type == 0 then r.decode_int32 rest else failed (wrong_wire_type wire_type)

  unfoldable pub read_int64 : ℕ → Bytes → Decoded (ℕ × Bytes)
  read_int64 wire_type rest =
      if wire_type == 0 then r.decode_int64 rest else failed (wrong_wire_type wire_type)

  -- A string, a byte slice or an inner message.
  unfoldable pub read_bytes : ℕ → ℕ → Bytes → Decoded (Bytes × Bytes)
  read_bytes wire_type l rest =
      if wire_type == 2 then r.decode rest >>= slice l else failed (wrong_wire_type wire_type)

  -- The default case, from the tag on.
  unfoldable pub skip_field : ℕ → Bytes → Decoded (Bytes × Bytes)
  skip_field l start = r.skip start >>= λ n. slice l (n, start)

  -- A field's value, put into the message.
  unfoldable pub set_field {ℓ κ} :
      {A : Type ℓ} {M : Type κ} → (A → M) → Decoded (A × Bytes) → Decoded (M × Bytes)
  set_field set d = d >>= λ p. let (a, rest) = p in decoded (set a, rest)

  -- An inner message, read by `unmarshal`, put into the message.
  unfoldable pub read_message {ℓ κ} :
      {A : Type ℓ} {M : Type κ}
      → (Bytes → Decoded A)
      → (A → M)
      → ℕ
      → ℕ
      → Bytes
      → Decoded (M × Bytes)
  read_message unmarshal set wire_type l rest = read_bytes wire_type l rest >>= λ p.
      let (inner, rest') = p in unmarshal inner >>= λ v. decoded (set v, rest')

  module _ {ℓ} {M : Type ℓ} (cases : Cases M) (add_unknown : Bytes → M → M) where
    -- What follows the tag `wire`.
    unfoldable pub read_field : ℕ → M → Bytes → ℕ → Bytes → Decoded (M × Bytes)
    read_field l m start wire rest =
        let field_num = (wire / 8) % 2 ^ 32 in
        let wire_type = wire % 8 in
        if wire_type == 4
        then failed end_group
        else if (field_num == 0) || leb (2 ^ 31) field_num
        then failed (illegal_tag wire)
        else elim (cases field_num wire_type m l rest) [
          | some d ↦ d
          | none ↦ skip_field l start >>= λ p.
              let (skipped, rest') = p in decoded (add_unknown skipped m, rest')
        ]

    -- One round of the loop.
    unfoldable pub read_round : ℕ → M → Bytes → Decoded (M × Bytes)
    read_round l m start =
        r.decode start >>= λ p. let (wire, rest) = p in read_field l m start wire rest

    -- The loop, on fuel.
    unfoldable pub read_fields : ℕ → ℕ → M → Bytes → Decoded M
    read_fields fuel l m [] = decoded m
    read_fields zero l m (b ∷ start) = out_of_fuel
    read_fields (suc fuel) l m (b ∷ start) =
        read_round l m (b ∷ start) >>= λ p. let (m', rest) = p in read_fields fuel l m' rest

    -- `UnmarshalVT` into `m`. A round reads a byte, so that the length of the input is enough fuel.
    unfoldable pub unmarshal_into : M → Bytes → Decoded M
    unmarshal_into m input = read_fields (length input) (length input) m input
