-- ===== src/Web/SharedRing/Tests.antt =====
-- Tests of web/shared.go, and its theorems at a ring of two slots of eight bytes.
use godash.Common.{◌^◌, ◌≡◌, refl, true, none, some, [], ◌∷◌, arith}
use godash.Web.SharedRing.{
  Worker, Reader, Descriptor, new_response_sink, sink_in, required, write, drain,
}
use godash.Web.SharedRing.Refine.{
  Linked, accepts, Wrote, write_refines, Drained, drain_refines, accepts_fitting,
}
use godash.Web.SharedRing.Bounds.{ring_of, write_in_bounds}
use godash.Web.Memory.{read_word}

abbrev small : Descriptor
small = record { byte_length = some 32; slots = 2; slot_size = 8 }

abbrev wide : Descriptor
wide = record { byte_length = some 32; slots = 2 ^ 32; slot_size = 2 ^ 32 }

abbrev worker : Worker
worker = record { ring = ring_of small; memory = λ _. 0; port = [] }

abbrev reader : Reader
reader = record { slots = 2; slot_size = 8; read_cursor = 0 }

short_buffer : new_response_sink (record small { byte_length = some 31 }) ≡ none
unfolding new_response_sink required
short_buffer = refl

odd_slots : new_response_sink (record small { slot_size = 6 }) ≡ none
unfolding new_response_sink
odd_slots = refl

empty-Linked : Linked worker reader []
unfolding read_word
empty-Linked = record {
  valid = record {
    some_slots = omega arith;
    some_bytes = omega arith;
    aligned = refl;
    small = omega arith;
  };
  same_slots = refl;
  same_size = refl;
  holds = record {
    used = refl;
    room = omega arith;
    reading = omega arith;
    writing = refl;
    stored = tt;
  };
}

-- A ring of 2^32 slots of 2^32 bytes asks for 16 bytes, as the product wraps.
wrapped_ring_test : new_response_sink wide ≡ some (ring_of wide)
unfolding new_response_sink sink_in required
wrapped_ring_test = refl

write_refines_example : Wrote worker reader [] (7 ∷ 8 ∷ []) (write worker (7 ∷ 8 ∷ []))
write_refines_example = write_refines worker reader [] (7 ∷ 8 ∷ []) empty-Linked

write_in_bounds_example : (write worker (7 ∷ 8 ∷ [])).1.memory 32 ≡ 0
write_in_bounds_example =
    write_in_bounds worker reader [] (7 ∷ 8 ∷ []) 32 empty-Linked (omega arith)

accepts_one : accepts 2 8 [] (7 ∷ 8 ∷ []) ≡ true
accepts_one = accepts_fitting 2 8 [] (7 ∷ 8 ∷ []) (omega arith) (omega arith)

abbrev one_frame : Worker
one_frame = (write worker (7 ∷ 8 ∷ [])).1

one-Linked : Linked one_frame reader ((7 ∷ 8 ∷ []) ∷ [])
one-Linked = rw accepts_one at (write_refines worker reader [] (7 ∷ 8 ∷ []) empty-Linked).linked

drain_refines_example : Drained one_frame ((7 ∷ 8 ∷ []) ∷ []) (drain reader one_frame.memory)
drain_refines_example = drain_refines one_frame reader ((7 ∷ 8 ∷ []) ∷ []) one-Linked
