-- ===== src/HotLayout/Packing.antt =====
-- The geometry of a layout: where `Compute` puts the fields, against the rules of a C struct.
use Prim.Native.String.{String}
use mathlib.Core.Path.{subst₂}
use godash.Common.{
  ℕ, ◌+◌, ◌%◌, ◌≤◌, ◌<◌, ◌≡◌, ◌⊎◌, inl, inr, refl, List, [], ◌∷◌, ◌++◌, map, append-nil,
  append_assoc, arith, All, ltb, Bool-cases, ap, subst, sym, if◌then◌else◌,
}
use godash.HotLayout.{
  FieldDescriptor, Field, Layout, Kind, Result, ok, err, ◌>>=◌, in_field, scalar_kind, scalar_type,
  align_up, sort, lay, place, compute,
}

abbrev pub IsSize : ℕ → Type 0
IsSize a = (a ≡ 1) ⊎ ((a ≡ 4) ⊎ (a ≡ 8))

-- The least multiple of `a` that is not below `x`.
abbrev pub IsAligned : ℕ → ℕ → ℕ → Type 0
IsAligned x a y = (y % a ≡ 0) × (x ≤ y) × (y < x + a)

pub align_up-IsAligned : (x a : ℕ) → IsSize a → IsAligned x a (align_up x a)
unfolding align_up
align_up-IsAligned x a (inl e) = rw e (ground arith)
align_up-IsAligned x a (inr (inl e)) = rw e (ground arith)
align_up-IsAligned x a (inr (inr e)) = rw e (ground arith)

-- The fields stand one behind the other from `off` to `end`, each at the first aligned offset.
abbrev pub Packed : ℕ → List Field → ℕ → Type 0
Packed off [] end = off ≡ end
Packed off (f ∷ fs) end =
    IsSize f.size × IsAligned off f.size f.offset × Packed (f.offset + f.size) fs end

pub widest : ℕ → List Field → ℕ
widest a [] = a
widest a (f ∷ fs) = widest (if ltb a f.size then f.size else a) fs

abbrev pub IsTyped : Field → Type 0
IsTyped f = (scalar_type f.desc ≡ ok (f.go_type, f.size)) × (f.number ≡ f.desc.number)

scalar_kind-IsSize : (k : Kind) {g : String} {s : ℕ} → scalar_kind k ≡ ok (g, s) → IsSize s
unfolding scalar_kind
scalar_kind-IsSize k h = ground arith

pub scalar_type-IsSize :
    (f : FieldDescriptor) {g : String} {s : ℕ} → scalar_type f ≡ ok (g, s) → IsSize s
unfolding scalar_type
scalar_type-IsSize f h = ground arith

-- What the loop adds to the fields so far, from `off` with the widest field `a` so far.
record Laid (fs : List FieldDescriptor) (out : List Field) (off a : ℕ) (l : Layout) : Type 0 where
  placed : List Field
  end : ℕ
  fields : l.fields ≡ out ++ placed
  described : map (λ f. f.desc) placed ≡ fs
  typed : All IsTyped placed
  packed : Packed off placed end
  total : l.size ≡ align_up end (widest a placed)

-- A round that went on had a field that passed.
in_field-passed {ℓ} :
    {A : Type ℓ} (name : String) (field : Result A) (rest : A → Result Layout) {l : Layout}
    → in_field name field >>= rest ≡ ok l
    → (t : A) × (field ≡ ok t) × (rest t ≡ ok l)
in_field-passed name (err e) rest h = cc
in_field-passed name (ok t) rest h = (t, refl, h)

-- One round of the loop.
Laid-cons :
    (f : FieldDescriptor) (fs : List FieldDescriptor) (out : List Field) (off a : ℕ)
    (t : String × ℕ) {l : Layout}
    → scalar_type f ≡ ok t
    → Laid fs
        (out ++ place f t (align_up off t.1) ∷ [])
        (align_up off t.1 + t.1)
        (if ltb a t.1 then t.1 else a)
        l
    → Laid (f ∷ fs) out off a l
unfolding widest
Laid-cons f fs out off a (g, s) e r = record {
  placed = place f (g, s) (align_up off s) ∷ r.placed;
  end = r.end;
  fields = rw (r.fields, append_assoc);
  described = ap (λ ds. f ∷ ds) r.described;
  typed = ((e, refl), r.typed);
  packed = (size, align_up-IsAligned off s size, r.packed);
  total = r.total;
}
  where
    size : IsSize s
    size = scalar_type-IsSize f e

lay-Laid :
    (fs : List FieldDescriptor) (out : List Field) (off a : ℕ) {l : Layout}
    → lay fs out off a ≡ ok l
    → Laid fs out off a l
unfolding lay widest
lay-Laid [] out off a h = record {
  placed = [];
  end = off;
  fields = ground (arith, append-nil out);
  described = refl;
  typed = tt;
  packed = refl;
  total = ground arith;
}
lay-Laid (f ∷ fs) out off a h =
    let (t, e, rest) = in_field-passed f.name (scalar_type f) _ h in
    Laid-cons f fs out off a t e (lay-Laid fs _ _ _ rest)

pub widest-IsSize :
    (a : ℕ) (fs : List Field) (off end : ℕ) → IsSize a → Packed off fs end → IsSize (widest a fs)
unfolding widest
widest-IsSize a [] off end h p = h
widest-IsSize a (f ∷ fs) off end h p = elim (Bool-cases (ltb a f.size)) [
  | inl e ↦ rw e (widest-IsSize f.size fs _ end p.0 p.2)
  | inr e ↦ rw e (widest-IsSize a fs _ end h p.2)
]

-- The layout of a C struct with the given members: the fields in order, each of its own type and
-- at the first offset aligned to its size behind the one before, and the size rounded up to the
-- widest member.
pub record IsPacked (fs : List FieldDescriptor) (l : Layout) : Type 0 where
  pub described : map (λ f. f.desc) l.fields ≡ fs
  pub typed : All IsTyped l.fields
  pub end : ℕ
  pub packed : Packed 0 l.fields end
  pub total : IsAligned end (widest 1 l.fields) l.size

-- What `Compute` returns is the packed layout of the fields in the order of their numbers.
pub compute-IsPacked :
    (m : List FieldDescriptor) {l : Layout} → compute m ≡ ok l → IsPacked (sort m) l
unfolding compute
compute-IsPacked m {l} h = record {
  described = subst (λ gs. map (λ f. f.desc) gs ≡ sort m) order laid.described;
  typed = subst (All IsTyped) order laid.typed;
  end = laid.end;
  packed = subst (λ gs. Packed 0 gs laid.end) order laid.packed;
  total = subst₂ (λ gs s. IsAligned laid.end (widest 1 gs) s) order (sym laid.total) rounded;
}
  where
    laid : Laid (sort m) [] 0 1 l
    laid = lay-Laid (sort m) [] 0 1 h

    order : laid.placed ≡ l.fields
    order = sym laid.fields

    rounded : IsAligned laid.end (widest 1 laid.placed) (align_up laid.end (widest 1 laid.placed))
    rounded =
        align_up-IsAligned laid.end _
          (widest-IsSize 1 laid.placed 0 laid.end (inl refl) laid.packed)
