-- ===== src/HotLayout/Bounds.antt =====
-- Consequences of the geometry: no two fields overlap, none leaves the buffer, and the buffer has
-- at most eight bytes for each field, so that no offset overflows.
use godash.Common.{
  ℕ, ◌+◌, ◌*◌, ◌≤◌, ◌≡◌, inl, inr, refl, ap, suc, subst, List, [], ◌∷◌, map, arith, All, length,
}
use godash.HotLayout.{FieldDescriptor, Field, Layout, ok, insert, sort, compute}
use godash.HotLayout.Packing.{
  IsSize, IsAligned, Packed, IsPacked, widest, widest-IsSize, compute-IsPacked,
}

-- Every field ends before each later one begins, and before the end of the buffer.
abbrev pub Apart : List Field → ℕ → Type 0
Apart [] size = Unit {0}
Apart (f ∷ fs) size =
    All (λ g. f.offset + f.size ≤ g.offset) fs × (f.offset + f.size ≤ size) × Apart fs size

Packed-above :
    (k off end : ℕ) (fs : List Field)
    → k ≤ off
    → Packed off fs end
    → All (λ g. k ≤ g.offset) fs × (k ≤ end)
Packed-above k off end [] h p = (tt, omega arith)
Packed-above k off end (f ∷ fs) h p =
    let rest = Packed-above k (f.offset + f.size) end fs (omega arith) p.2 in
    ((omega arith, rest.0), rest.1)

Packed-Apart : (off end size : ℕ) (fs : List Field) → end ≤ size → Packed off fs end → Apart fs size
Packed-Apart off end size [] h p = tt
Packed-Apart off end size (f ∷ fs) h p =
    let above = Packed-above (f.offset + f.size) _ end fs (omega arith) p.2 in
    (above.0, omega (arith, above.1), Packed-Apart (f.offset + f.size) end size fs h p.2)

-- No two fields of a computed layout overlap, and all of them lie inside the buffer.
pub compute-Apart :
    (m : List FieldDescriptor) {l : Layout} → compute m ≡ ok l → Apart l.fields l.size
compute-Apart m h = let p = compute-IsPacked m h in Packed-Apart 0 p.end _ _ p.total.1 p.packed

-- A field that starts at or before a multiple of eight ends at or before the next.
slot_bound : (k off o s : ℕ) → off ≤ 8 * k → IsSize s → IsAligned off s o → o + s ≤ 8 * (k + 1)
slot_bound k off o s h (inl e) a = omega arith
slot_bound k off o s h (inr (inl e)) a =
    let b = subst (λ t. IsAligned off t o) e a in omega (arith, b.0, b.2)
slot_bound k off o s h (inr (inr e)) a =
    let b = subst (λ t. IsAligned off t o) e a in omega (arith, b.0, b.2)

Packed-bound :
    (k off end : ℕ) (fs : List Field) → off ≤ 8 * k → Packed off fs end → end ≤ 8 * (k + length fs)
Packed-bound k off end [] h p = omega arith
Packed-bound k off end (f ∷ fs) h p = omega (
  arith,
  Packed-bound (k + 1) (f.offset + f.size) end fs (slot_bound k off f.offset f.size h p.0 p.1) p.2,
)

length-insert :
    (f : FieldDescriptor) (fs : List FieldDescriptor) → length (insert f fs) ≡ suc (length fs)
unfolding insert
length-insert f [] = omega arith
length-insert f (g ∷ gs) = ground (arith, length-insert f gs)

length-sort : (fs : List FieldDescriptor) → length (sort fs) ≡ length fs
unfolding sort
length-sort [] = omega arith
length-sort (f ∷ fs) = omega (arith, length-insert f (sort fs), length-sort fs)

length-map {ℓ κ} :
    {A : Type ℓ} {B : Type κ} (f : A → B) (xs : List A) → length (map f xs) ≡ length xs
length-map f [] = omega arith
length-map f (x ∷ xs) = omega (arith, length-map f xs)

-- Rounding up to the widest member does not leave the eight bytes of the last field.
total_bound : (n end a size : ℕ) → end ≤ 8 * n → IsSize a → IsAligned end a size → size ≤ 8 * n
total_bound n end a size h (inl e) t = omega arith
total_bound n end a size h (inr (inl e)) t =
    let b = subst (λ t. IsAligned end t size) e t in omega (arith, b.0, b.2)
total_bound n end a size h (inr (inr e)) t =
    let b = subst (λ t. IsAligned end t size) e t in omega (arith, b.0, b.2)

-- The buffer of a message with `n` fields has at most `8 n` bytes.
pub compute-size-le :
    (m : List FieldDescriptor) {l : Layout} → compute m ≡ ok l → l.size ≤ 8 * length m
compute-size-le m {l} h =
    total_bound (length m) p.end (widest 1 l.fields) l.size
      (omega (arith, Packed-bound 0 0 p.end l.fields (omega arith) p.packed, count))
      (widest-IsSize 1 l.fields 0 p.end (inl refl) p.packed) p.total
  where
    p : IsPacked (sort m) l
    p = compute-IsPacked m h

    count : length l.fields ≡ length m
    count =
        omega
          (arith, ap length p.described, length-map (λ (f : Field). f.desc) l.fields, length-sort m)
