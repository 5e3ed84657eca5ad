-- ===== src/Pb/Tests/Varint.antt =====
-- A concrete codec for what pb/core_lite.go calls: numbers in groups of seven bits, the lowest first.
-- It shows that the hypotheses on the called module can hold together.
use godash.Common.{
  ℕ, zero, suc, ◌+◌, ◌-◌, ◌*◌, ◌/◌, ◌%◌, ◌^◌, ◌<◌, ◌≡◌, refl, ap, false, inl, inr, Bool-cases,
  if_elim, [], ◌∷◌, ◌++◌, if◌then◌else◌, ltb, ◌==◌, ltb→le, lt→ltb, le→ltb, length, int_of_int32,
  arith,
}
use native.Mathlib.Nat.{pow-suc}
use godash.Pb.Runtime.{
  Bytes, Decoded, failed, decoded, out_of_bounds, out_of_fuel, ◌>>=◌, unexpected_eof, runtime,
  Runtime, IsDocumented, Advances, Within, IsPositive,
}
use godash.Pb.Input.Total.{Within-bind, Within-if}

-- On the number of groups.
unfoldable pub encode : ℕ → ℕ → Bytes
encode zero v = []
encode (suc groups) v =
    let rest = encode groups (v / 128) in if ltb v 128 then v ∷ [] else (v % 128 + 128) ∷ rest

unfoldable pub decode : ℕ → Bytes → Decoded (ℕ × Bytes)
decode groups [] = failed unexpected_eof
decode zero (b ∷ bs) = failed (runtime 0)
decode (suc groups) (b ∷ bs) =
    let later =
      decode groups bs >>= λ p. let (high, rest) = p in decoded ((b - 128) + 128 * high, rest) in
    if ltb b 128 then decoded (b, bs) else later

unfoldable pub decode_mod : ℕ → Bytes → Decoded (ℕ × Bytes)
decode_mod n bs = decode 10 bs >>= λ p. let (v, rest) = p in decoded (v % n, rest)

-- A field that is a number; the others are refused.
unfoldable pub skip_number : Bytes → ℕ → ℕ × Bytes → Decoded ℕ
skip_number bs wire (v, rest) =
    if wire % 8 == 0 then decoded (length bs - length rest) else failed (runtime 1)

unfoldable pub skip : Bytes → Decoded ℕ
skip bs = decode 10 bs >>= λ p. let (wire, behind) = p in decode 10 behind >>= skip_number bs wire

abbrev pub varint : Runtime
varint = record {
  encode = encode 10;
  size_of = λ v. length (encode 10 v);
  decode = decode 10;
  decode_int32 = decode_mod (2 ^ 32);
  decode_int64 = decode_mod (2 ^ 64);
  skip = skip;
}

decode-encode :
    (groups v : ℕ) (rest : Bytes)
    → v < 128 ^ suc groups
    → decode (suc groups) (encode (suc groups) v ++ rest) ≡ decoded (v, rest)
unfolding decode encode
decode-encode zero v rest small = elim (Bool-cases (ltb v 128)) [
  | inl e ↦ rw (encode, e, decode, e) refl
  | inr e ↦ absurd (omega (arith, small, ltb→le v 128 e))
]
decode-encode (suc groups) v rest small = elim (Bool-cases (ltb v 128)) [
  | inl e ↦ rw (encode, e, decode, e) refl
  | inr e ↦
      let bound : 128 ^ suc (suc groups) ≡ 128 ^ suc groups * 128 = pow-suc 128 (suc groups) in
      let high = decode-encode groups (v / 128) rest (omega (arith, small, bound)) in
      let more : ltb (v % 128 + 128) 128 ≡ false = le→ltb (v % 128 + 128) 128 (omega arith) in
      let whole : (v % 128 + 128 - 128) + 128 * (v / 128) ≡ v = omega arith in
      rw (encode, e, decode, more, high) (ap (λ x. decoded (x, rest)) whole)
]

decode-Within : (groups : ℕ) (bs : Bytes) → Within (length bs) (decode groups bs)
unfolding Within decode
decode-Within groups [] = tt
decode-Within zero (b ∷ bs) = tt
decode-Within (suc groups) (b ∷ bs) = Within-if (length (b ∷ bs)) (ltb b 128) _ _ (omega arith) (
    Within-bind (length bs) (length (b ∷ bs)) (decode groups bs) _ (decode-Within groups bs)
      λ high rest h. omega (arith, h))

decode_mod-Within : (n : ℕ) (bs : Bytes) → Within (length bs) (decode_mod n bs)
unfolding Within decode_mod
decode_mod-Within n bs =
    Within-bind (length bs) (length bs) (decode 10 bs) _ (decode-Within 10 bs) λ v rest h. h

skip-IsPositive : (bs : Bytes) → IsPositive (skip bs)
unfolding Within IsPositive skip skip_number
skip-IsPositive bs = first (decode 10 bs) (decode-Within 10 bs)
  where
    second :
        (behind : Bytes) (wire : ℕ) (d : Decoded (ℕ × Bytes))
        → length behind < length bs
        → Within (length behind) d
        → IsPositive (d >>= skip_number bs wire)
    second behind wire (failed e) less h = tt
    second behind wire (decoded (v, rest)) less h =
        if_elim IsPositive (wire % 8 == 0) _ _ (λ _. omega (arith, h, less)) λ _. tt
    second behind wire out_of_bounds less h = absurd h
    second behind wire out_of_fuel less h = absurd h

    first :
        (d : Decoded (ℕ × Bytes))
        → Within (length bs) d
        → IsPositive (d >>= λ p. let (wire, behind) = p in decode 10 behind >>= skip_number bs wire)
    first (failed e) h = tt
    first (decoded (wire, behind)) h =
        second behind wire (decode 10 behind) h (decode-Within 10 behind)
    first out_of_bounds h = absurd h
    first out_of_fuel h = absurd h

pub varint-IsDocumented : IsDocumented varint
unfolding encode decode_mod
varint-IsDocumented = record {
  length_encode = λ v. refl;
  encode_small = λ v h. rw (encode, lt→ltb v 128 h) refl;
  decode_encode = λ v rest h. decode-encode 9 v rest (omega (arith, h));
  decode_encode_int32 = λ v rest h.
      let (low, wide) = int32_back v h in
      rw (decode_mod, decode-encode 9 (int_of_int32 v) rest low, wide) refl;
  decode_encode_int64 = λ v rest h.
      let same : v % 2 ^ 64 ≡ v = omega (arith, h) in
      rw (decode_mod, decode-encode 9 v rest (omega (arith, h)), same) refl;
}
  where
    int32_back : (v : ℕ) → v < 2 ^ 32 → (int_of_int32 v < 128 ^ 10) × (int_of_int32 v % 2 ^ 32 ≡ v)
    int32_back v h = ground arith

pub varint-Advances : Advances varint
varint-Advances = record {
  decode_within = decode-Within 10;
  decode_int32_within = decode_mod-Within (2 ^ 32);
  decode_int64_within = decode_mod-Within (2 ^ 64);
  skip_positive = skip-IsPositive;
}
