-- ===== src/Pb/Input/Reads.antt =====
-- Sequences of fields, as the loop of the decoders of pb/core_lite.go reads them.
use godash.Common.{
  ℕ, zero, suc, ◌+◌, ◌≤◌, ◌<◌, ◌≡◌, refl, sym, ap, subst, ◌∙◌, [], ◌∷◌, ◌++◌, length, int_half,
  length-append, append_assoc, append-nil, arith,
}
use godash.Pb.Runtime.{Bytes, decoded, Runtime, IsDocumented}
use godash.Pb.Input.{Cases, read_field, read_round, read_fields, unmarshal_into}

module _ {ℓ} {M : Type ℓ} (r : Runtime) (cases : Cases M) (add_unknown : Bytes → M → M) where
  -- The loop takes `m` to `m'` on these bytes, whatever follows them, and keeps enough fuel.
  pub record Reads (m : M) (bs : Bytes) (m' : M) : Type ℓ where
    pub reads :
        (fuel l : ℕ) (rest : Bytes)
        → length (bs ++ rest) ≤ fuel
        → length (bs ++ rest) ≤ l
        → l < int_half
        → (left : ℕ) × (length rest ≤ left)
          × (read_fields r cases add_unknown fuel l m (bs ++ rest)
              ≡ read_fields r cases add_unknown left l m' rest)

  -- One round of the loop.
  round_reads :
      (m m' : M) (b : ℕ) (bs : Bytes) (fuel l : ℕ) (rest : Bytes)
      → length (b ∷ (bs ++ rest)) ≤ fuel
      → read_round r cases add_unknown l m (b ∷ (bs ++ rest)) ≡ decoded (m', rest)
      → (left : ℕ) × (length rest ≤ left)
        × (read_fields r cases add_unknown fuel l m (b ∷ (bs ++ rest))
            ≡ read_fields r cases add_unknown left l m' rest)
  unfolding read_fields
  round_reads m m' b bs zero l rest enough e = absurd (omega (arith, enough))
  round_reads m m' b bs (suc fuel) l rest enough e =
      (fuel, omega (arith, enough, length-append bs rest), rw (read_fields, e) refl)

  -- What follows a tag of one byte.
  pub read_round-tag :
      IsDocumented r
      → (l : ℕ) (m : M) (tag : ℕ) (rest : Bytes) → tag < 128
      → read_round r cases add_unknown l m (tag ∷ rest)
        ≡ read_field r cases add_unknown l m (tag ∷ rest) tag rest
  unfolding read_round
  read_round-tag d l m tag rest small =
      let e : tag ∷ rest ≡ r.encode tag ++ rest =
        ap (λ x. x ++ rest) (sym (d.encode_small tag small)) in
      rw (read_round, e, d.decode_encode tag rest (omega arith)) refl

module _ {ℓ} {M : Type ℓ} {r : Runtime} {cases : Cases M} {add_unknown : Bytes → M → M} where
  pub Reads-nil : (m : M) → Reads r cases add_unknown m [] m
  Reads-nil m = record { reads = λ fuel l rest enough fits small. (fuel, enough, refl) }

  pub Reads-append :
      {m m' m'' : M} {a b : Bytes}
      → Reads r cases add_unknown m a m'
      → Reads r cases add_unknown m' b m''
      → Reads r cases add_unknown m (a ++ b) m''
  Reads-append {m} {m'} {m''} {a} {b} first second = record {
    reads = λ fuel l rest enough fits small.
        let e : (a ++ b) ++ rest ≡ a ++ (b ++ rest) = append_assoc a b rest in
        let size : length ((a ++ b) ++ rest) ≡ length a + length (b ++ rest) =
          ap length e ∙ length-append a (b ++ rest) in
        let (g, g_enough, start) =
          first.reads fuel l (b ++ rest) (subst (λ x. length x ≤ fuel) e enough)
            (subst (λ x. length x ≤ l) e fits) small in
        let (h, h_enough, end) = second.reads g l rest g_enough (omega (arith, size)) small in
        (h, h_enough, ap (read_fields r cases add_unknown fuel l m) e ∙ start ∙ end);
  }

  pub Reads-round :
      (m m' : M) (b : ℕ) (bs : Bytes)
      → ((l : ℕ) (rest : Bytes)
          → length (b ∷ (bs ++ rest)) ≤ l
          → l < int_half
          → read_round r cases add_unknown l m (b ∷ (bs ++ rest)) ≡ decoded (m', rest))
      → Reads r cases add_unknown m (b ∷ bs) m'
  Reads-round m m' b bs round = record {
    reads = λ fuel l rest enough fits small.
        round_reads r cases add_unknown m m' b bs fuel l rest enough (round l rest fits small);
  }

  -- A message that is read from its first byte to its last is decoded.
  pub unmarshal_into-Reads :
      (m m' : M) (bs : Bytes)
      → Reads r cases add_unknown m bs m'
      → length bs < int_half
      → unmarshal_into r cases add_unknown m bs ≡ decoded m'
  unfolding unmarshal_into read_fields
  unmarshal_into-Reads m m' bs h small =
      let n = length bs in
      let e : length (bs ++ []) ≤ n =
        subst (λ x. length x ≤ n) (sym (append-nil bs)) (omega arith) in
      let (left, enough, same) = h.reads n n [] e e small in
      ap (read_fields r cases add_unknown n n m) (sym (append-nil bs)) ∙ same
