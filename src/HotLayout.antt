-- ===== src/HotLayout.antt =====
-- internal/hotlayout/hotlayout.go: the packed layout of a hot method's request or response.
-- A descriptor is what the package asks of it through protoreflect. A Go `int` offset is a
-- natural number here: `Bounds` shows that it stays below eight times the number of fields.
pub mod Order
pub mod Packing
pub mod Bounds
pub mod Errors
pub mod Methods
pub mod Accessor
mod Tests
use Prim.Native.String.{String}
use godash.Common.{
  ℕ, ◌+◌, ◌-◌, ◌*◌, ◌/◌, ◌≡◌, Bool, true, false, List, [], ◌∷◌, ◌++◌, if◌then◌else◌, ltb, leb,
}

-- The kinds that `scalarType` names; `other` is any other kind, by its printed name.
pub data Kind : Type 0 where
  bool_kind int32_kind sint32_kind sfixed32_kind uint32_kind fixed32_kind : Kind
  int64_kind sint64_kind sfixed64_kind uint64_kind fixed64_kind float_kind double_kind : Kind
  other : String → Kind

pub record FieldDescriptor : Type 0 where
  pub name : String
  pub number : ℕ
  pub is_map : Bool
  pub is_list : Bool
  pub in_oneof : Bool
  pub has_presence : Bool
  pub kind : Kind

pub record Field : Type 0 where
  pub desc : FieldDescriptor
  pub number : ℕ
  pub offset : ℕ
  pub size : ℕ
  pub go_type : String

pub record Layout : Type 0 where
  pub fields : List Field
  pub size : ℕ

pub data Error : Type 0 where
  map_unsupported repeated_unsupported oneof_unsupported presence_unsupported : Error
  kind_unsupported : Kind → Error
  field_error : String → Error → Error

-- The Go pair of a value and an error.
pub data Result {ℓ} (Value : Type ℓ) : Type ℓ where
  err : Error → Result Value
  ok : Value → Result Value

-- `fmt.Errorf("field %s: %w", f.Name(), err)`
abbrev pub in_field {ℓ} : {A : Type ℓ} → String → Result A → Result A
in_field name (err e) = err (field_error name e)
in_field name (ok a) = ok a

-- `if err != nil { return err }`, then the rest.
infixl 5 ◌>>=◌
abbrev pub ◌>>=◌ {κ ℓ} :
    {Value : Type κ} {Next : Type ℓ} → Result Value → (Value → Result Next) → Result Next
err e >>= rest = err e
ok value >>= rest = rest value

pub scalar_kind : Kind → Result (String × ℕ)
scalar_kind bool_kind = ok ("bool", 1)
scalar_kind int32_kind = ok ("int32", 4)
scalar_kind sint32_kind = ok ("int32", 4)
scalar_kind sfixed32_kind = ok ("int32", 4)
scalar_kind uint32_kind = ok ("uint32", 4)
scalar_kind fixed32_kind = ok ("uint32", 4)
scalar_kind int64_kind = ok ("int64", 8)
scalar_kind sint64_kind = ok ("int64", 8)
scalar_kind sfixed64_kind = ok ("int64", 8)
scalar_kind uint64_kind = ok ("uint64", 8)
scalar_kind fixed64_kind = ok ("uint64", 8)
scalar_kind float_kind = ok ("float32", 4)
scalar_kind double_kind = ok ("float64", 8)
scalar_kind (other name) = err (kind_unsupported (other name))

pub scalar_type : FieldDescriptor → Result (String × ℕ)
unfolding scalar_kind
scalar_type f =
    if f.is_map
    then err map_unsupported
    else if f.is_list
    then err repeated_unsupported
    else if f.in_oneof
    then err oneof_unsupported
    else if f.has_presence
    then err presence_unsupported
    else scalar_kind f.kind

pub align_up : ℕ → ℕ → ℕ
align_up x a = if leb a 1 then x else (x + a - 1) / a * a

-- `sort.Slice` by field number. Field numbers of a message are distinct, so that the order in
-- which it leaves equal numbers does not matter.
pub insert : FieldDescriptor → List FieldDescriptor → List FieldDescriptor
insert f [] = f ∷ []
insert f (g ∷ gs) = if leb f.number g.number then f ∷ g ∷ gs else g ∷ insert f gs

pub sort : List FieldDescriptor → List FieldDescriptor
sort [] = []
sort (f ∷ fs) = insert f (sort fs)

-- The `Field` literal that the loop appends.
abbrev pub place : FieldDescriptor → String × ℕ → ℕ → Field
place f t start = record { desc = f; number = f.number; offset = start; size = t.1; go_type = t.0 }

-- The loop over the sorted fields, from `out.Fields`, `off` and `align`.
pub lay : List FieldDescriptor → List Field → ℕ → ℕ → Result Layout
lay [] out off align = ok (record { fields = out; size = align_up off align })
lay (f ∷ fs) out off align = in_field f.name (scalar_type f) >>= λ t.
    let start = align_up off t.1 in
    lay fs (out ++ place f t start ∷ []) (start + t.1) (if ltb align t.1 then t.1 else align)

-- A message descriptor is the list of its fields in declaration order.
pub compute : List FieldDescriptor → Result Layout
compute m = lay (sort m) [] 0 1

pub eligible : List FieldDescriptor → Bool
eligible m = elim (compute m) [ ok l ↦ true | err e ↦ false ]
