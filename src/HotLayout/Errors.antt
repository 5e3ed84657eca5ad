-- ===== src/HotLayout/Errors.antt =====
-- Which messages can be packed, and what the error says of one that cannot.
use Prim.Native.String.{String}
use godash.Common.{
  ◌<◌, ◌≤◌, All-map, Among, All-Among, ℕ, ◌≡◌, ◌↔◌, refl, true, false, List, [], ◌∷◌, ◌++◌, arith,
  All, leb, Bool-cases, ◌⊎◌, inl, inr, sym, ap, subst,
}
use godash.HotLayout.{
  Kind, bool_kind, other, FieldDescriptor, Field, Layout, Error, field_error, Result, ok, err,
  scalar_kind, scalar_type, insert, sort, lay, compute, eligible,
}
use godash.HotLayout.Order.{Ascending, sort_lem}

abbrev pub IsScalarKind : Kind → Type 0
IsScalarKind bool_kind = Unit
IsScalarKind (other name) = ⊥
IsScalarKind _ = Unit

-- A field with a fixed layout: singular, outside every oneof, without presence, of a scalar kind.
pub record IsScalar (f : FieldDescriptor) : Type 0 where
  pub singular : (f.is_map ≡ false) × (f.is_list ≡ false)
  pub plain : (f.in_oneof ≡ false) × (f.has_presence ≡ false)
  pub scalar : IsScalarKind f.kind

-- The fields before the first that has no fixed layout, that field, and what is said of it.
pub record FirstBad (fs : List FieldDescriptor) (e : Error) : Type 0 where
  pub before : List FieldDescriptor
  pub bad : FieldDescriptor
  pub after : List FieldDescriptor
  pub cause : Error
  pub order : fs ≡ before ++ bad ∷ after
  pub scalars : All IsScalar before
  pub refused : scalar_type bad ≡ err cause
  pub message : e ≡ field_error bad.name cause

scalar_kind_total : (k : Kind) → IsScalarKind k → (t : String × ℕ) × (scalar_kind k ≡ ok t)
unfolding scalar_kind
scalar_kind_total (other name) h = absurd h
scalar_kind_total bool_kind h = (_, refl)
scalar_kind_total _ h = (_, refl)

scalar_kind-IsScalarKind : (k : Kind) {t : String × ℕ} → scalar_kind k ≡ ok t → IsScalarKind k
unfolding scalar_kind
scalar_kind-IsScalarKind (other name) h = cc
scalar_kind-IsScalarKind bool_kind h = tt
scalar_kind-IsScalarKind _ h = tt

IsScalar-typed : (f : FieldDescriptor) → IsScalar f → (t : String × ℕ) × (scalar_type f ≡ ok t)
unfolding scalar_type
IsScalar-typed f h =
    let (t, e) = scalar_kind_total f.kind h.scalar in (t, ground (arith, h.singular, h.plain))

typed-IsScalar : (f : FieldDescriptor) {t : String × ℕ} → scalar_type f ≡ ok t → IsScalar f
unfolding scalar_type
typed-IsScalar f {t} h = record {
  singular = ground arith;
  plain = ground arith;
  scalar = scalar_kind-IsScalarKind f.kind {t = t} (ground arith);
}

Result-cases {ℓ} :
    {A : Type ℓ} (r : Result A) → ((e : Error) × (r ≡ err e)) ⊎ ((a : A) × (r ≡ ok a))
Result-cases (err e) = inl (e, refl)
Result-cases (ok a) = inr (a, refl)

abbrev Outcome : List FieldDescriptor → Result Layout → Type 0
Outcome fs r =
    ((l : Layout) × (r ≡ ok l) × All IsScalar fs) ⊎ ((e : Error) × (r ≡ err e) × FirstBad fs e)

Outcome-cons :
    (f : FieldDescriptor) (fs : List FieldDescriptor) (t : String × ℕ)
    → scalar_type f ≡ ok t
    → (r : Result Layout) → Outcome fs r
    → Outcome (f ∷ fs) r
Outcome-cons f fs t e r (inl (l, h, scalars)) = inl (l, h, (typed-IsScalar f e, scalars))
Outcome-cons f fs t e r (inr (c, h, b)) = inr (
  c,
  h,
  record {
    before = f ∷ b.before;
    bad = b.bad;
    after = b.after;
    cause = b.cause;
    order = ap (λ gs. f ∷ gs) b.order;
    scalars = (typed-IsScalar f e, b.scalars);
    refused = b.refused;
    message = b.message;
  },
)

-- The loop either finds every field scalar, or stops at the first that is not.
lay-Outcome :
    (fs : List FieldDescriptor) (out : List Field) (off a : ℕ) {r : Result Layout}
    → lay fs out off a ≡ r
    → Outcome fs r
unfolding lay
lay-Outcome [] out off a h = inl (_, sym h, tt)
lay-Outcome (f ∷ fs) out off a {r} h = elim (Result-cases (scalar_type f)) [
  | inr (t, e) ↦ Outcome-cons f fs t e r (lay-Outcome fs _ _ _ (sym (rw e at (sym h))))
  | inl (c, e) ↦ inr (
    field_error f.name c,
    ground arith,
    record {
      before = [];
      bad = f;
      after = fs;
      cause = c;
      order = refl;
      scalars = tt;
      refused = e;
      message = refl;
    },
  )
]

All-middle {κ} :
    (P : FieldDescriptor → Type κ) (fs gs : List FieldDescriptor) {f : FieldDescriptor}
    → All P (fs ++ f ∷ gs)
    → P f
All-middle P [] gs h = h.0
All-middle P (g ∷ fs) gs h = All-middle P fs gs h.1

compute-FirstBad : (m : List FieldDescriptor) {e : Error} → compute m ≡ err e → FirstBad (sort m) e
unfolding compute
compute-FirstBad m {e} h = elim (lay-Outcome (sort m) [] 0 1 h) [
  | inl (l, c, scalars) ↦ cc
  | inr (c, d, b) ↦ subst (FirstBad (sort m)) (ground arith) b
]

FirstBad-not-scalars : (fs : List FieldDescriptor) {e : Error} → FirstBad fs e → ¬ All IsScalar fs
FirstBad-not-scalars fs b h =
    let (t, typed) =
      IsScalar-typed b.bad
        (All-middle IsScalar b.before b.after (subst (All IsScalar) b.order h)) in
    cc (b.refused, typed)

module _ {κ} (P : FieldDescriptor → Type κ) where
  All-insert :
      (f : FieldDescriptor) (fs : List FieldDescriptor) → All P (insert f fs) ↔ (P f × All P fs)
  unfolding insert
  All-insert f [] = (λ h. h, λ h. h)
  All-insert f (g ∷ gs) = elim (Bool-cases (leb f.number g.number)) [
    | inl e ↦ rw e (λ h. h, λ h. h)
    | inr e ↦ rw e (
      λ h. let k = (All-insert f gs).0 h.1 in (k.0, (h.0, k.1)),
      λ h. (h.1.0, (All-insert f gs).1 (h.0, h.1.1)),
    )
  ]

  All-sort : (fs : List FieldDescriptor) → All P (sort fs) ↔ All P fs
  unfolding sort
  All-sort [] = (λ h. h, λ h. h)
  All-sort (f ∷ fs) = (
    λ h. let k = (All-insert f (sort fs)).0 h in (k.0, (All-sort fs).0 k.1),
    λ h. (All-insert f (sort fs)).1 (h.0, (All-sort fs).1 h.1),
  )

-- The field of the lowest number among those without a fixed layout, and what is said of it.
pub record LowestBad (m : List FieldDescriptor) (e : Error) : Type 0 where
  pub bad : FieldDescriptor
  pub cause : Error
  pub among : Among bad m
  pub refused : scalar_type bad ≡ err cause
  pub lowest : All (λ g. g.number < bad.number → IsScalar g) m
  pub message : e ≡ field_error bad.name cause

-- In ascending order, what is behind a field has no lower number.
none_lower :
    (before after : List FieldDescriptor) (bad : FieldDescriptor)
    → Ascending (before ++ bad ∷ after)
    → All IsScalar before
    → All (λ g. g.number < bad.number → IsScalar g) (before ++ bad ∷ after)
none_lower [] after bad a h = (
  λ less. absurd (omega (arith, less)),
  All-map (λ g. bad.number ≤ g.number) _ after (λ g le less. absurd (omega (arith, le, less))) a.0,
)
none_lower (f ∷ fs) after bad a h = (λ _. h.0, none_lower fs after bad a.1 h.1)

-- A failed computation names, with the reason, a field of the message that has no fixed layout, such
-- that every field of a lower number has one.
pub compute-LowestBad : (m : List FieldDescriptor) {e : Error} → compute m ≡ err e → LowestBad m e
compute-LowestBad m {e} h =
    let b = compute-FirstBad m h in
    record {
      bad = b.bad;
      cause = b.cause;
      among =
          All-middle (λ g. Among g m) b.before b.after
            (subst (All (λ g. Among g m)) b.order ((All-sort (λ g. Among g m) m).1 (All-Among m)));
      refused = b.refused;
      lowest = (All-sort (λ g. g.number < b.bad.number → IsScalar g) m).0 (
          subst (All (λ g. g.number < b.bad.number → IsScalar g)) (sym b.order)
            (none_lower b.before b.after b.bad (subst Ascending b.order (sort_lem m).0) b.scalars));
      message = b.message;
    }

-- `Eligible` holds of exactly the messages all of whose fields have a fixed layout.
pub eligible_iff : (m : List FieldDescriptor) → (eligible m ≡ true) ↔ All IsScalar m
unfolding eligible compute
eligible_iff m = elim (lay-Outcome (sort m) [] 0 1 refl) [
  | inl (l, h, scalars) ↦ (λ _. (All-sort IsScalar m).0 scalars, λ _. rw (h, eligible))
  | inr (e, h, b) ↦ (
    λ k. absurd (cc (rw (h, eligible) at k)),
    λ k. absurd (FirstBad-not-scalars (sort m) b ((All-sort IsScalar m).1 k)),
  )
]
