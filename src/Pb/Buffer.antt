-- ===== src/Pb/Buffer.antt =====
-- How the marshallers of pb/core_lite.go fill a buffer: from its end to its start.
pub mod Laws
use godash.Common.{
  ℕ, zero, suc, ◌+◌, ◌-◌, ◌≡◌, Bool, true, false, Option, none, some, List, [], ◌∷◌, ◌++◌,
  if◌then◌else◌, ltb, leb, ◌==◌, length, take,
}
use godash.Pb.Runtime.{Bytes, Runtime}

-- The number of bytes still free, and those written behind them.
abbrev pub Buffer : Type 0
Buffer = ℕ × Bytes

-- What a marshaller does to a buffer; none is a panic, of an index below 0.
abbrev pub Writer : Type 0
Writer = Buffer → Option Buffer

infixl 5 ◌then◌
-- One writer, then the other.
abbrev pub ◌then◌ : Writer → Writer → Writer
◌then◌ v w b = elim (v b) [ none ↦ none | some c ↦ w c ]

-- `i -= len(s); copy(dAtA[i:], s)`
unfoldable pub put : Bytes → Writer
put s (i, out) = if leb (length s) i then some (i - length s, s ++ out) else none

-- `i--; dAtA[i] = b`
unfoldable pub put_byte : ℕ → Writer
put_byte b = put (b ∷ [])

-- What `MarshalVT` returns: `dAtA[:n]` of a buffer of `size` zeros that a writer filled, where `n` is
-- the number of bytes it wrote.
unfoldable pub zeros : ℕ → Bytes
zeros zero = []
zeros (suc n) = 0 ∷ zeros n

unfoldable pub marshal_with : Writer → ℕ → Option Bytes
marshal_with w size = elim (w (size, [])) [
  | none ↦ none
  | some (i, out) ↦ some (take (size - i) (zeros i ++ out))
]

module _ (r : Runtime) where
  -- `i = EncodeVarint(dAtA, i, v)`
  unfoldable pub put_varint : ℕ → Writer
  put_varint v = put (r.encode v)

  -- A number that is not 0, behind its tag.
  unfoldable pub put_number : ℕ → ℕ → ℕ → Writer
  put_number tag x v b = if x == 0 then some b else (put_varint v then put_byte tag) b

  -- A string or byte slice that is not empty, behind its tag and length.
  unfoldable pub put_bytes : ℕ → Bytes → Writer
  put_bytes tag s b =
      if ltb 0 (length s) then (put s then put_varint (length s) then put_byte tag) b else some b

  -- An inner message behind its tag and the number of bytes that its writer wrote.
  unfoldable pub put_message : ℕ → Writer → Writer
  put_message tag w (i, out) = elim (w (i, out)) [
    | none ↦ none
    | some (j, out') ↦ (put_varint (i - j) then put_byte tag) (j, out')
  ]

  -- The share of a number in `SizeVT`.
  unfoldable pub size_number : ℕ → ℕ → ℕ
  size_number x v = if x == 0 then 0 else 1 + r.size_of v

  -- The share of a string or byte slice in `SizeVT`.
  unfoldable pub size_bytes : Bytes → ℕ
  size_bytes s = if ltb 0 (length s) then 1 + length s + r.size_of (length s) else 0

  -- The size of an inner message in a oneof.
  unfoldable pub size_message : ℕ → ℕ
  size_message l = 1 + l + r.size_of l
