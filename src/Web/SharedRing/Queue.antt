-- ===== src/Web/SharedRing/Queue.antt =====
-- The ring as a bounded queue of frames: what `write` appends `drain` takes out, oldest first.
use native.Mathlib.Nat.{mod-add-mod, mod-eq_of_lt, mod-eq-sub-mod, add-zero}
use native.Mathlib.Decide.{dec_lt}
use godash.Common.{
  ℕ, suc, ◌+◌, ◌-◌, ◌*◌, ◌%◌, ◌^◌, ◌≤◌, ◌<◌, ◌≡◌, ◌≢◌, ◌⊎◌, inl, inr, sym, ap, subst, ◌∙◌, List, [],
  ◌∷◌, ◌++◌, arith, length, length-append,
}
use godash.Web.Memory.{
  Memory, Bytes, Agree, read_word, write_word, read_word-Agree, read_word-write_word,
  write_word_outside,
}
use godash.Web.SharedRing.{slot_base, store_frame}
use godash.Web.SharedRing.Slots.{
  SlotHolds, SlotHolds-Agree, store_frame_outside, store_frame-SlotHolds, slot_base_aligned,
  slot_apart,
}

-- What `newResponseSink` accepts, in a buffer below two gigabytes.
pub record IsValid (slots w : ℕ) : Type 0 where
  pub some_slots : 0 < slots
  pub some_bytes : 4 < w
  pub aligned : w % 4 ≡ 0
  pub small : 16 + slots * w < 2 ^ 31

-- The slots from `s` on, going round, hold the frames of the queue.
abbrev pub Stored : Memory → ℕ → ℕ → ℕ → List Bytes → Type 0
Stored m slots w s [] = Unit {0}
Stored m slots w s (f ∷ fs) = SlotHolds m w s f × Stored m slots w ((s + 1) % slots) fs

-- The ring between cursors: the counter is the number of unread frames, and the slots from the read
-- cursor on hold them.
pub record Holds (slots w : ℕ) (m : Memory) (read_cursor cursor : ℕ) (q : List Bytes) : Type 0 where
  pub used : read_word m 0 ≡ length q
  pub room : length q ≤ slots
  pub reading : read_cursor < slots
  pub writing : cursor ≡ (read_cursor + length q) % slots
  pub stored : Stored m slots w read_cursor q

-- Fewer than a full round of steps does not come back.
step_ne : (slots s k : ℕ) → s < slots → suc k < slots → s ≢ (s + suc k) % slots
step_ne slots s k hs hk = elim (dec_lt (s + suc k) slots) [
  | yes p ↦ omega (arith, mod-eq_of_lt p)
  | no p ↦ omega (
    arith,
    mod-eq-sub-mod {n = s + suc k} {m = slots} (omega arith),
    mod-eq_of_lt {n = s + suc k - slots} {m = slots} (omega arith),
  )
]

pub next_lt : (slots s : ℕ) → s < slots → (s + 1) % slots < slots
next_lt slots s h = omega arith

pub shift : (slots s k : ℕ) → ((s + 1) % slots + k) % slots ≡ (s + suc k) % slots
shift slots s k = rw mod-add-mod (ap (λ n. n % slots) (omega arith))

-- Frames stay stored in a memory that keeps the bytes of their slots.
Stored-keep :
    (m m' : Memory) (slots w s c : ℕ) (q : List Bytes)
    → ((t : ℕ) → t ≢ c → Agree m m' (slot_base w t) (slot_base w t + w))
    → s < slots
    → length q < slots
    → c ≡ (s + length q) % slots
    → Stored m slots w s q
    → Stored m' slots w s q
Stored-keep m m' slots w s c [] h hs hq e v = tt
Stored-keep m m' slots w s c (f ∷ fs) h hs hq e v = (
  SlotHolds-Agree m m' w s f (h s (λ d. step_ne slots s (length fs) hs hq (d ∙ e))) v.0,
  Stored-keep m m' slots w ((s + 1) % slots) c fs h (next_lt slots s hs) (omega arith)
      (e ∙ sym (shift slots s (length fs))) v.1,
)

Stored-append :
    (m : Memory) (slots w s : ℕ) (q : List Bytes) (f : Bytes)
    → s < slots
    → Stored m slots w s q
    → SlotHolds m w ((s + length q) % slots) f
    → Stored m slots w s (q ++ f ∷ [])
Stored-append m slots w s [] f hs v h =
    (subst (λ t. SlotHolds m w t f) (ap (λ t. t % slots) (add-zero s) ∙ mod-eq_of_lt hs) h, tt)
Stored-append m slots w s (g ∷ q) f hs v h = (
  v.0,
  Stored-append m slots w ((s + 1) % slots) q f (next_lt slots s hs) v.1
      (subst (λ t. SlotHolds m w t f) (sym (shift slots s (length q))) h),
)

module _ (slots w : ℕ) (valid : IsValid slots w) where
  -- A slot lies behind the control bytes and ends inside the buffer.
  pub slot_room : (c : ℕ) → c < slots → slot_base w c + w ≤ 16 + slots * w
  slot_room c h = grind arith

  -- A write into slot `c` changes the bytes of no other slot.
  write_keeps :
      (m : Memory) (c v : ℕ) (f : Bytes)
      → length f + 4 ≤ w
      → (t : ℕ) → t ≢ c
      → Agree m
          (write_word (store_frame m (slot_base w c) f) 0 v)
          (slot_base w t)
          (slot_base w t + w)
  write_keeps m c v f fits t ne j lo hi = sym (
      write_word_outside _ 0 v j (inr (omega arith))
      ∙ store_frame_outside m (slot_base w c) f (slot_base_aligned w c valid.aligned) j
          (outside (slot_apart w t c j ne lo hi)))
    where
      outside :
          (j < slot_base w c) ⊎ (slot_base w c + w ≤ j)
          → (j < slot_base w c) ⊎ (slot_base w c + 4 + length f ≤ j)
      outside (inl a) = inl a
      outside (inr a) = inr (omega arith)

  counter_keeps :
      (m : Memory) (c : ℕ) (f : Bytes)
      → read_word (store_frame m (slot_base w c) f) 0 ≡ read_word m 0
  counter_keeps m c f = sym (
      read_word-Agree m _ 0 (λ j a b. sym (
        store_frame_outside m (slot_base w c) f (slot_base_aligned w c valid.aligned) j
          (inl (omega arith)))))

  pub small : (slots < 2 ^ 31) × (w < 2 ^ 31)
  small = let v = slot_room 0 valid.some_slots in (slots_le, omega (arith, v, valid.small))
    where
      slots_le : slots < 2 ^ 31
      slots_le = grind (arith, valid.small, valid.some_bytes)

  pub counter_outside :
      (m : Memory) (c v : ℕ) → Agree m (write_word m 0 v) (slot_base w c) (slot_base w c + w)
  counter_outside m c v j lo hi = sym (write_word_outside m 0 v j (inr (omega arith)))

  abbrev pub published : Memory → ℕ → Bytes → Memory
  published m c f =
      let stored = store_frame m (slot_base w c) f in write_word stored 0 (read_word stored 0 + 1)

  -- Publishing a frame that fits, while a slot is free, appends it to the queue.
  pub published-Holds :
      (m : Memory) (read_cursor cursor : ℕ) (q : List Bytes) (f : Bytes)
      → Holds slots w m read_cursor cursor q
      → length f + 4 ≤ w
      → length q < slots
      → Holds slots w (published m cursor f) read_cursor ((cursor + 1) % slots) (q ++ f ∷ [])
  published-Holds m rc c q f h fits free = record {
    used =
        read_word-write_word _ 0 _ (omega (arith, count, small.0, free))
        ∙ omega (arith, count, length-append q (f ∷ []));
    room = omega (arith, length-append q (f ∷ []));
    reading = h.reading;
    writing =
        rw (h.writing, mod-add-mod) (ap (λ n. n % slots) (omega (arith, length-append q (f ∷ []))));
    stored =
        Stored-append _ slots w rc q f h.reading
          (Stored-keep m _ slots w rc c q (write_keeps m c _ f fits) h.reading free h.writing
            h.stored)
          (subst (λ t. SlotHolds (published m c f) w t f) h.writing
            (SlotHolds-Agree _ _ w c f (counter_outside _ c _)
              (store_frame-SlotHolds m w c f (slot_base_aligned w c valid.aligned) fits small.1)));
  }
    where
      count : read_word (store_frame m (slot_base w c) f) 0 ≡ length q
      count = counter_keeps m c f ∙ h.used
