-- ===== src/Web/SharedRing/Bounds.antt =====
-- Which descriptors get a ring, and that the ring stays inside their buffer.
use godash.Common.{
  ℕ, ◌+◌, ◌*◌, ◌%◌, ◌≤◌, ◌<◌, ◌≡◌, ◌∙◌, inl, inr, some, List, arith, length, Bool-cases,
}
use godash.Web.Memory.{Memory, Bytes, write_word, write_word_outside}
use godash.Web.SharedRing.{SharedRing, Worker, Reader, Descriptor, slot_base, store_frame, write}
use godash.Web.SharedRing.Slots.{store_frame_outside, slot_base_aligned}
use godash.Web.SharedRing.Queue.{IsValid, slot_room}
use godash.Web.SharedRing.Refine.{Linked, accepts, write_accepted, write_refused, accepts_room}

-- A descriptor that describes a ring: room for a byte in each slot, whole words, and a buffer that
-- holds the control bytes and all slots.
pub record Describes (d : Descriptor) (size : ℕ) : Type 0 where
  pub buffer : d.byte_length ≡ some size
  pub some_slots : 0 < d.slots
  pub some_bytes : 4 < d.slot_size
  pub aligned : d.slot_size % 4 ≡ 0
  pub large_enough : 16 + d.slots * d.slot_size ≤ size

abbrev pub ring_of : Descriptor → SharedRing
ring_of d = record { slots = d.slots; slot_size = d.slot_size; cursor = 0 }

store_frame_in_bounds :
    (slots w : ℕ) (v : IsValid slots w) (m : Memory) (c n j : ℕ) (f : Bytes)
    → c < slots
    → length f + 4 ≤ w
    → 16 + slots * w ≤ j
    → write_word (store_frame m (slot_base w c) f) 0 n j ≡ m j
store_frame_in_bounds slots w v m c n j f hc fits far =
    write_word_outside _ 0 n j (inr (omega arith))
    ∙ store_frame_outside m (slot_base w c) f (slot_base_aligned w c v.aligned) j
        (inr (omega (arith, slot_room slots w v c hc)))

cursor_lt : (w : Worker) (r : Reader) (q : List Bytes) → Linked w r q → w.ring.cursor < w.ring.slots
cursor_lt w r q l = rw l.holds.writing (omega (arith, l.valid.some_slots))

-- `write` on a ring that holds a queue changes no byte behind the slots, whether or not it takes the frame.
pub write_in_bounds :
    (w : Worker) (r : Reader) (q : List Bytes) (f : Bytes) (j : ℕ)
    → Linked w r q
    → 16 + w.ring.slots * w.ring.slot_size ≤ j
    → (write w f).1.memory j ≡ w.memory j
write_in_bounds w r q f j l far = elim (Bool-cases (accepts w.ring.slots w.ring.slot_size q f)) [
  | inl room ↦ rw (write_accepted w q f l.valid l.holds.used room) (
      store_frame_in_bounds _ _ l.valid w.memory w.ring.cursor _ j f (cursor_lt w r q l)
        (accepts_room _ _ q f room).0 far)
  | inr full ↦ rw (write_refused w q f l.holds.used full)
]
