-- ===== src/Pb/Runtime.antt =====
-- What pb/core_lite.go calls of the module protobuf-go-lite, which is not part of the repository, and
-- what it relies on there. An unsigned number is below 2^64; an int64 is its bit pattern below 2^64,
-- an int32 below 2^32.
use godash.Common.{ℕ, ◌<◌, ◌^◌, ◌≡◌, List, [], ◌∷◌, ◌++◌, length, int_of_int32}

abbrev pub Bytes : Type 0
Bytes = List ℕ

-- The errors of the decoders; `runtime` is one that the called module returns.
pub data DecodeError : Type 0 where
  end_group invalid_length unexpected_eof : DecodeError
  illegal_tag wrong_wire_type runtime : ℕ → DecodeError

-- What a decoder comes to. `out_of_bounds` is a slice expression that leaves the bytes the decoder was
-- given; `out_of_fuel` is no value of the code.
pub data Decoded {ℓ} (A : Type ℓ) : Type ℓ where
  failed : DecodeError → Decoded A
  decoded : A → Decoded A
  out_of_bounds out_of_fuel : Decoded A

-- `if err != nil { return err }`, then what follows.
infixl 5 ◌>>=◌
abbrev pub ◌>>=◌ {ℓ κ} : {A : Type ℓ} {B : Type κ} → Decoded A → (A → Decoded B) → Decoded B
failed e >>= rest = failed e
decoded a >>= rest = rest a
out_of_bounds >>= rest = out_of_bounds
out_of_fuel >>= rest = out_of_fuel

-- A decoder takes the bytes from its index on, and returns those behind what it read.
pub record Runtime : Type 0 where
  -- The bytes that `EncodeVarint` writes before its index.
  pub encode : ℕ → Bytes
  -- `SizeOfVarint`
  pub size_of : ℕ → ℕ
  -- `DecodeVarint`, `DecodeVarintInt32` and `DecodeVarintInt64`
  pub decode : Bytes → Decoded (ℕ × Bytes)
  pub decode_int32 : Bytes → Decoded (ℕ × Bytes)
  pub decode_int64 : Bytes → Decoded (ℕ × Bytes)
  -- `Skip`
  pub skip : Bytes → Decoded ℕ

-- The encoding is that of the protobuf documentation: the decoders read back what was encoded, the
-- size is the number of bytes, and a number below 128 is one byte.
pub record IsDocumented (r : Runtime) : Type 0 where
  pub length_encode : (v : ℕ) → length (r.encode v) ≡ r.size_of v
  pub encode_small : (v : ℕ) → v < 128 → r.encode v ≡ v ∷ []
  pub decode_encode :
      (v : ℕ) (rest : Bytes) → v < 2 ^ 64 → r.decode (r.encode v ++ rest) ≡ decoded (v, rest)
  pub decode_encode_int32 :
      (v : ℕ) (rest : Bytes)
      → v < 2 ^ 32
      → r.decode_int32 (r.encode (int_of_int32 v) ++ rest) ≡ decoded (v, rest)
  pub decode_encode_int64 :
      (v : ℕ) (rest : Bytes) → v < 2 ^ 64 → r.decode_int64 (r.encode v ++ rest) ≡ decoded (v, rest)

-- What a decoder that was given `n` bytes comes to: an error, or fewer bytes than `n`.
unfoldable pub Within {ℓ} : {A : Type ℓ} → ℕ → Decoded (A × Bytes) → Type 0
Within n (failed e) = Unit
Within n (decoded (a, rest)) = length rest < n
Within n out_of_bounds = ⊥
Within n out_of_fuel = ⊥

unfoldable pub IsPositive : Decoded ℕ → Type 0
IsPositive (failed e) = Unit
IsPositive (decoded n) = 0 < n
IsPositive out_of_bounds = ⊥
IsPositive out_of_fuel = ⊥

-- Each of them returns, a decoder reads a byte at least, and a skipped field has one.
pub record Advances (r : Runtime) : Type 0 where
  pub decode_within : (input : Bytes) → Within (length input) (r.decode input)
  pub decode_int32_within : (input : Bytes) → Within (length input) (r.decode_int32 input)
  pub decode_int64_within : (input : Bytes) → Within (length input) (r.decode_int64 input)
  pub skip_positive : (input : Bytes) → IsPositive (r.skip input)
