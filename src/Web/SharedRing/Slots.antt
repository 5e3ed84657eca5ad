-- ===== src/Web/SharedRing/Slots.antt =====
-- The slots of a ring: what a stored frame needs of the bytes, and which bytes a write may change.
use native.Mathlib.Decide.{dec_lt}
use godash.Common.{
  ℕ, ◌+◌, ◌*◌, ◌/◌, ◌%◌, ◌^◌, ◌≤◌, ◌<◌, ◌≡◌, ◌≢◌, ◌⊎◌, inl, inr, sym, ◌∙◌, refl, [], ◌∷◌, arith,
  length, ltb, lt→ltb, Bool-cases, subst,
}
use godash.Web.Memory.{
  Memory, Bytes, Agree, read_word, write_word, read_bytes, write_bytes, read_word-Agree,
  read_bytes-Agree, read_word-write_word, read_bytes-write_bytes, write_word_outside,
  write_bytes_outside,
}
use godash.Web.SharedRing.{slot_base, store_frame}

-- Slot `s` holds a frame that fits: its length in the header, its bytes behind it.
pub record SlotHolds (m : Memory) (w s : ℕ) (frame : Bytes) : Type 0 where
  pub header : read_word m (slot_base w s) ≡ length frame
  pub payload : read_bytes m (slot_base w s + 4) (length frame) ≡ frame
  pub fits : length frame + 4 ≤ w

pub SlotHolds-Agree :
    (m m' : Memory) (w s : ℕ) (frame : Bytes)
    → Agree m m' (slot_base w s) (slot_base w s + w)
    → SlotHolds m w s frame
    → SlotHolds m' w s frame
SlotHolds-Agree m m' w s frame h v = record {
  header =
      sym (read_word-Agree m m' (slot_base w s) (λ j a b. h j a (omega (arith, v.fits))))
      ∙ v.header;
  payload =
      sym (
        read_bytes-Agree m m' (slot_base w s + 4) (length frame)
          (λ j a b. h j (omega arith) (omega (arith, v.fits))))
      ∙ v.payload;
  fits = v.fits;
}

module _ (m : Memory) (base : ℕ) (frame : Bytes) (aligned : base % 4 ≡ 0) where
  exact : base / 4 * 4 ≡ base
  exact = omega arith

  -- A frame changes no byte but those of its header and its payload.
  pub store_frame_outside :
      (j : ℕ) → (j < base) ⊎ (base + 4 + length frame ≤ j) → store_frame m base frame j ≡ m j
  unfolding store_frame
  store_frame_outside j h = ground (
    arith,
    exact,
    write_bytes_outside (write_word m base (length frame)) (base + 4) frame j,
    write_word_outside m base (length frame) j,
  )

  store_frame-header :
      length frame < 2 ^ 32 → read_word (store_frame m base frame) base ≡ length frame
  unfolding store_frame
  store_frame-header h = elim (Bool-cases (ltb 0 (length frame))) [
    | inl e ↦
        rw (exact, e)
          (read_word-Agree _ (write_word m base (length frame)) base
              (λ j a b. write_bytes_outside _ (base + 4) frame j (inl b))
            ∙ read_word-write_word m base (length frame) h)
    | inr e ↦ rw (exact, e) (read_word-write_word m base (length frame) h)
  ]

store_frame-nonempty :
    (m : Memory) (base : ℕ) (frame : Bytes)
    → 0 < length frame
    → write_bytes (write_word m (base / 4 * 4) (length frame)) (base + 4) frame
      ≡ store_frame m base frame
unfolding store_frame
store_frame-nonempty m base frame h = rw (lt→ltb 0 (length frame) h)

store_frame-payload :
    (m : Memory) (base : ℕ) (frame : Bytes)
    → read_bytes (store_frame m base frame) (base + 4) (length frame) ≡ frame
unfolding read_bytes
store_frame-payload m base [] = refl
store_frame-payload m base (b ∷ bs) =
    subst (λ k. read_bytes k (base + 4) (length (b ∷ bs)) ≡ b ∷ bs)
      (store_frame-nonempty m base (b ∷ bs) (omega arith))
      (read_bytes-write_bytes _ (base + 4) (b ∷ bs))

-- After the write the slot holds the frame.
pub store_frame-SlotHolds :
    (m : Memory) (w s : ℕ) (frame : Bytes)
    → slot_base w s % 4 ≡ 0
    → length frame + 4 ≤ w
    → w < 2 ^ 31
    → SlotHolds (store_frame m (slot_base w s) frame) w s frame
store_frame-SlotHolds m w s frame b h small = record {
  header = store_frame-header m (slot_base w s) frame b (omega arith);
  payload = store_frame-payload m (slot_base w s) frame;
  fits = h;
}

-- Slots start at multiples of four if their size is one.
pub slot_base_aligned : (w s : ℕ) → w % 4 ≡ 0 → slot_base w s % 4 ≡ 0
slot_base_aligned w s h = subst (λ v. slot_base v s % 4 ≡ 0) whole (multiple (w / 4))
  where
    whole : 4 * (w / 4) ≡ w
    whole = omega arith

    multiple : (k : ℕ) → (16 + s * (4 * k)) % 4 ≡ 0
    multiple k = omega arith

room : (w s c : ℕ) → s < c → s * w + w ≤ c * w
room w s c h = grind arith

-- Different slots share no byte.
pub slot_apart :
    (w s c j : ℕ)
    → s ≢ c
    → slot_base w s ≤ j
    → j < slot_base w s + w
    → (j < slot_base w c) ⊎ (slot_base w c + w ≤ j)
slot_apart w s c j h lo hi = elim (dec_lt s c) [
  | yes p ↦ inl (omega (arith, room w s c p))
  | no p ↦ inr (omega (arith, room w c s (omega arith)))
]
