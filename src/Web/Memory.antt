-- ===== src/Web/Memory.antt =====
-- Shared memory as the bytes of a `SharedArrayBuffer`, with its `Int32Array` and `Uint8Array` views.
-- `SharedRing.Bounds` shows that no access leaves the buffer, so a byte stands at every index.
use godash.Common.{
  ℕ, zero, suc, ◌+◌, ◌*◌, ◌/◌, ◌%◌, ◌^◌, ◌≤◌, ◌<◌, ◌≡◌, ◌⊎◌, inl, ◌∙◌, refl, ap₂, List, [], ◌∷◌,
  arith, length, if◌then◌else◌, ◌==◌,
}

abbrev pub Memory : Type 0
Memory = ℕ → ℕ

abbrev pub Bytes : Type 0
Bytes = List ℕ

pub put : Memory → ℕ → ℕ → Memory
put m i v j = if j == i then v else m j

-- The four bytes of an `Int32Array` element at byte offset `i`, least significant first. The
-- lengths and counts stored are below `2 ^ 31`, so that no sign is needed.
pub write_word : Memory → ℕ → ℕ → Memory
write_word m i v =
    put (put (put (put m i (v % 256)) (i + 1) (v / 256 % 256)) (i + 2) (v / 65536 % 256)) (i + 3)
      (v / 16777216 % 256)

unfoldable pub read_word : Memory → ℕ → ℕ
read_word m i = m i + 256 * m (i + 1) + 65536 * m (i + 2) + 16777216 * m (i + 3)

-- `js.CopyBytesToJS` into the subarray from byte offset `i`.
pub write_bytes : Memory → ℕ → Bytes → Memory
write_bytes m i [] = m
write_bytes m i (b ∷ bs) = write_bytes (put m i b) (i + 1) bs

unfoldable pub read_bytes : Memory → ℕ → ℕ → Bytes
read_bytes m i zero = []
read_bytes m i (suc n) = m i ∷ read_bytes m (i + 1) n

-- A word below `2 ^ 32` is read back as it was written.
pub read_word-write_word : (m : Memory) (i v : ℕ) → v < 2 ^ 32 → read_word (write_word m i v) i ≡ v
unfolding read_word write_word put
read_word-write_word m i v h = ground arith

pub write_word_outside : (m : Memory) (i v j : ℕ) → (j < i) ⊎ (i + 4 ≤ j) → write_word m i v j ≡ m j
unfolding write_word put
write_word_outside m i v j h = ground arith

pub write_bytes_outside :
    (m : Memory) (i : ℕ) (bs : Bytes) (j : ℕ)
    → (j < i) ⊎ (i + length bs ≤ j)
    → write_bytes m i bs j ≡ m j
unfolding write_bytes put
write_bytes_outside m i [] j h = refl
write_bytes_outside m i (b ∷ bs) j h = ground (arith, write_bytes_outside (put m i b) (i + 1) bs j)

-- Two memories with the same bytes from `lo` up to `hi`.
abbrev pub Agree : Memory → Memory → ℕ → ℕ → Type 0
Agree m m' lo hi = (j : ℕ) → lo ≤ j → j < hi → m j ≡ m' j

pub read_word-Agree :
    (m m' : Memory) (i : ℕ) → Agree m m' i (i + 4) → read_word m i ≡ read_word m' i
unfolding read_word
read_word-Agree m m' i h = ground (
  arith,
  h i (omega arith) (omega arith),
  h (i + 1) (omega arith) (omega arith),
  h (i + 2) (omega arith) (omega arith),
  h (i + 3) (omega arith) (omega arith),
)

pub read_bytes-Agree :
    (m m' : Memory) (i n : ℕ) → Agree m m' i (i + n) → read_bytes m i n ≡ read_bytes m' i n
unfolding read_bytes
read_bytes-Agree m m' i zero h = refl
read_bytes-Agree m m' i (suc n) h =
    ap₂ ◌∷◌ (h i (omega arith) (omega arith))
      (read_bytes-Agree m m' (i + 1) n (λ j a b. h j (omega arith) (omega arith)))

-- Bytes are read back as they were written.
pub read_bytes-write_bytes :
    (m : Memory) (i : ℕ) (bs : Bytes) → read_bytes (write_bytes m i bs) i (length bs) ≡ bs
unfolding read_bytes write_bytes put
read_bytes-write_bytes m i [] = refl
read_bytes-write_bytes m i (b ∷ bs) =
    ap₂ ◌∷◌ (write_bytes_outside (put m i b) (i + 1) bs i (inl (omega arith)) ∙ ground arith)
      (read_bytes-write_bytes (put m i b) (i + 1) bs)
