-- ===== src/Pb/Input/Total.antt =====
-- The loop of the decoders of pb/core_lite.go ends: each round reads a byte at least.
use godash.Common.{
  ℕ, zero, suc, ◌+◌, ◌/◌, ◌%◌, ◌^◌, ◌-◌, ◌≤◌, ◌<◌, ◌||◌, Bool, true, false, Option, none, some, [],
  ◌∷◌, if◌then◌else◌, ltb, leb, ◌==◌, length, drop, length-drop, int_half, if_elim, arith,
}
use godash.Pb.Runtime.{
  Bytes, Decoded, failed, decoded, out_of_bounds, out_of_fuel, ◌>>=◌, Runtime, Within, IsPositive,
  Advances,
}
use godash.Pb.Input.{
  slice, sub_slice, Cases, read_int32, read_int64, read_bytes, skip_field, set_field, read_message,
  read_field, read_round, read_fields, unmarshal_into,
}

-- It comes to an error or a value, and stays within the bytes it was given.
unfoldable pub Returns {ℓ} : {A : Type ℓ} → Decoded A → Type 0
Returns (failed e) = Unit
Returns (decoded a) = Unit
Returns out_of_bounds = ⊥
Returns out_of_fuel = ⊥

pub Within-bind {ℓ κ} :
    {A : Type ℓ} {B : Type κ} (n k : ℕ) (d : Decoded (A × Bytes))
    (f : A × Bytes → Decoded (B × Bytes))
    → Within n d
    → ((a : A) (rest : Bytes) → length rest < n → Within k (f (a, rest)))
    → Within k (d >>= f)
unfolding Within
Within-bind n k (failed e) f h g = tt
Within-bind n k (decoded (a, rest)) f h g = g a rest h
Within-bind n k out_of_bounds f h g = absurd h
Within-bind n k out_of_fuel f h g = absurd h

pub Within-weaken {ℓ} :
    {A : Type ℓ} (n k : ℕ) (d : Decoded (A × Bytes)) → n ≤ k → Within n d → Within k d
unfolding Within
Within-weaken n k (failed e) le h = tt
Within-weaken n k (decoded (a, rest)) le h = omega (arith, le, h)
Within-weaken n k out_of_bounds le h = absurd h
Within-weaken n k out_of_fuel le h = absurd h

pub Within-if {ℓ} :
    {A : Type ℓ} (k : ℕ) (b : Bool) (x y : Decoded (A × Bytes))
    → Within k x
    → Within k y
    → Within k (if b then x else y)
Within-if k true x y hx hy = hx
Within-if k false x y hx hy = hy

pub slice-Within : (l n k : ℕ) (rest : Bytes) → length rest - n < k → Within k (slice l (n, rest))
unfolding slice sub_slice Within
slice-Within l n k rest h =
    let last : length (drop n rest) < k = omega (arith, length-drop n rest, h) in
    let post_index = (l - length rest) + n in
    if_elim (Within k) (leb int_half n) _ _ (λ _. tt)
      λ a.
        if_elim (Within k) (leb int_half post_index) _ _ (λ _. tt)
          λ b. if_elim (Within k) (ltb l post_index) _ _ (λ _. tt) λ c. rw (a, b, c) last

pub Returns-bind {ℓ κ} :
    {A : Type ℓ} {B : Type κ} (n : ℕ) (d : Decoded (A × Bytes)) (f : A × Bytes → Decoded B)
    → Within n d
    → ((a : A) (rest : Bytes) → length rest < n → Returns (f (a, rest)))
    → Returns (d >>= f)
unfolding Within Returns
Returns-bind n (failed e) f h g = tt
Returns-bind n (decoded (a, rest)) f h g = g a rest h
Returns-bind n out_of_bounds f h g = absurd h
Returns-bind n out_of_fuel f h g = absurd h

Within-decoded {ℓ κ} :
    {A : Type ℓ} {M : Type κ} (set : A → M) (rest : Bytes) (k : ℕ) (d : Decoded A)
    → Returns d
    → length rest < k
    → Within k (d >>= λ v. decoded (set v, rest))
unfolding Within Returns
Within-decoded set rest k (failed e) ret small = tt
Within-decoded set rest k (decoded v) ret small = small
Within-decoded set rest k out_of_bounds ret small = absurd ret
Within-decoded set rest k out_of_fuel ret small = absurd ret

-- No case leaves more bytes than there are behind the tag.
unfoldable pub CaseWithin {ℓ} : {M : Type ℓ} → ℕ → Option (Decoded (M × Bytes)) → Type 0
CaseWithin n none = Unit
CaseWithin n (some d) = Within (suc n) d

unfoldable pub CasesWithin {ℓ} : {M : Type ℓ} → Cases M → Type ℓ
CasesWithin {M = M} cases =
    (field_num wire_type : ℕ) (m : M) (l : ℕ) (rest : Bytes)
    → CaseWithin (length rest) (cases field_num wire_type m l rest)

pub CaseWithin-if {ℓ} :
    {M : Type ℓ} (n : ℕ) (b : Bool) (x y : Option (Decoded (M × Bytes)))
    → CaseWithin n x
    → CaseWithin n y
    → CaseWithin n (if b then x else y)
CaseWithin-if n true x y hx hy = hx
CaseWithin-if n false x y hx hy = hy

module _ (r : Runtime) (a : Advances r) where
  pub read_int32-Within :
      (wire_type : ℕ) (rest : Bytes) → Within (suc (length rest)) (read_int32 r wire_type rest)
  unfolding read_int32 Within
  read_int32-Within wire_type rest =
      Within-if (suc (length rest)) (wire_type == 0) _ _
        (Within-weaken (length rest) (suc (length rest)) (r.decode_int32 rest) (omega arith)
          (a.decode_int32_within rest))
        tt

  pub read_int64-Within :
      (wire_type : ℕ) (rest : Bytes) → Within (suc (length rest)) (read_int64 r wire_type rest)
  unfolding read_int64 Within
  read_int64-Within wire_type rest =
      Within-if (suc (length rest)) (wire_type == 0) _ _
        (Within-weaken (length rest) (suc (length rest)) (r.decode_int64 rest) (omega arith)
          (a.decode_int64_within rest))
        tt

  pub read_bytes-Within :
      (wire_type l : ℕ) (rest : Bytes) → Within (suc (length rest)) (read_bytes r wire_type l rest)
  unfolding read_bytes Within
  read_bytes-Within wire_type l rest =
      Within-if (suc (length rest)) (wire_type == 2) _ _
        (Within-bind (length rest) (suc (length rest)) (r.decode rest) (slice l)
          (a.decode_within rest)
          λ n rest' h. slice-Within l n (suc (length rest)) rest' (omega (arith, h)))
        tt

  pub set_field-Within {ℓ κ} :
      {A : Type ℓ} {M : Type κ} (k : ℕ) (set : A → M) (d : Decoded (A × Bytes))
      → Within k d
      → Within k (set_field r set d)
  unfolding set_field Within
  set_field-Within k set d h = Within-bind k k d _ h λ v rest h'. h'

  -- An inner message is within its field, if its own decoder returns.
  pub read_message-Within {ℓ κ} :
      {A : Type ℓ} {M : Type κ} (unmarshal : Bytes → Decoded A) (set : A → M) (wire_type l : ℕ)
      (rest : Bytes)
      → ((input : Bytes) → Returns (unmarshal input))
      → Within (suc (length rest)) (read_message r unmarshal set wire_type l rest)
  unfolding read_message Within
  read_message-Within unmarshal set wire_type l rest h =
      let k = suc (length rest) in
      Within-bind k k (read_bytes r wire_type l rest) _ (read_bytes-Within wire_type l rest)
        λ inner rest' small. Within-decoded set rest' k (unmarshal inner) (h inner) small

  module _ {ℓ} {M : Type ℓ} (cases : Cases M) (add_unknown : Bytes → M → M) where
    skip_field-Within :
        (l : ℕ) (start : Bytes) → 0 < length start → Within (length start) (skip_field r l start)
    unfolding skip_field IsPositive Within
    skip_field-Within l start some_left = go (r.skip start) (a.skip_positive start)
      where
        go : (d : Decoded ℕ) → IsPositive d → Within (length start) (d >>= λ n. slice l (n, start))
        go (failed e) h = tt
        go (decoded n) h = slice-Within l n (length start) start (omega (arith, h, some_left))
        go out_of_bounds h = absurd h
        go out_of_fuel h = absurd h

    read_field-Within :
        CasesWithin cases
        → (l : ℕ) (m : M) (start : Bytes) (wire : ℕ) (rest : Bytes) → length rest < length start
        → Within (length start) (read_field r cases add_unknown l m start wire rest)
    unfolding read_field CasesWithin CaseWithin Within
    read_field-Within c l m start wire rest less =
        let field_num = (wire / 8) % 2 ^ 32 in
        let wire_type = wire % 8 in
        Within-if (length start) (wire_type == 4) _ _ tt (
          Within-if (length start) ((field_num == 0) || leb (2 ^ 31) field_num) _ _ tt
            (go (cases field_num wire_type m l rest) (c field_num wire_type m l rest)))
      where
        go :
            (o : Option (Decoded (M × Bytes)))
            → CaseWithin (length rest) o
            → Within (length start) (elim o [
              | some d ↦ d
              | none ↦ skip_field r l start >>= λ p.
                  let (skipped, rest') = p in decoded (add_unknown skipped m, rest')
            ])
        go (some d) h = Within-weaken (suc (length rest)) (length start) d (omega (arith, less)) h
        go none h =
            Within-bind (length start) (length start) (skip_field r l start) _
              (skip_field-Within l start (omega (arith, less))) λ skipped rest' h'. h'

    read_round-Within :
        CasesWithin cases
        → (l : ℕ) (m : M) (start : Bytes)
        → Within (length start) (read_round r cases add_unknown l m start)
    unfolding read_round
    read_round-Within c l m start =
        Within-bind (length start) (length start) (r.decode start) _ (a.decode_within start)
          λ wire rest h. read_field-Within c l m start wire rest h

    read_fields-Returns :
        CasesWithin cases
        → (fuel l : ℕ) (m : M) (bs : Bytes) → length bs ≤ fuel
        → Returns (read_fields r cases add_unknown fuel l m bs)
    unfolding read_fields Returns
    read_fields-Returns c fuel l m [] enough = tt
    read_fields-Returns c zero l m (b ∷ bs) enough = absurd (omega (arith, enough))
    read_fields-Returns c (suc fuel) l m (b ∷ bs) enough =
        Returns-bind (length (b ∷ bs)) (read_round r cases add_unknown l m (b ∷ bs)) _
          (read_round-Within c l m (b ∷ bs))
          λ m' rest h. read_fields-Returns c fuel l m' rest (omega (arith, enough, h))

    -- The length of the input is enough fuel.
    pub unmarshal_into-Returns :
        CasesWithin cases
        → (m : M) (input : Bytes) → Returns (unmarshal_into r cases add_unknown m input)
    unfolding unmarshal_into
    unmarshal_into-Returns c m input =
        read_fields-Returns c (length input) (length input) m input (omega arith)
