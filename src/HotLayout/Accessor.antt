-- ===== src/HotLayout/Accessor.antt =====
-- The loads and stores of a hot method in Dart, cmd/protoc-gen-dart-godash/main.go: `dartAccessor`,
-- against the fields that internal/hotlayout/hotlayout.go lays out.
use Prim.Native.String.{String}
use text.Mathlib.Text.{◌==◌ as str_eq}
use godash.Common.{ℕ, ◌≡◌, refl, subst, Bool, true, false, List, All, All-map, arith, if◌then◌else◌}
use godash.HotLayout.{
  Kind, bool_kind, int32_kind, sint32_kind, sfixed32_kind, uint32_kind, fixed32_kind, int64_kind,
  sint64_kind, sfixed64_kind, uint64_kind, fixed64_kind, float_kind, double_kind, other,
  FieldDescriptor, Layout, ok, scalar_kind, scalar_type, compute,
}
use godash.HotLayout.Packing.{IsTyped, compute-IsPacked}

-- `dartAccessor`: the getter, the setter, and whether the value is a byte that stands for a bool.
unfoldable pub dart_accessor : String → String × String × Bool
dart_accessor go_type =
    if str_eq go_type "int32"
    then ("getInt32", "setInt32", false)
    else if str_eq go_type "uint32"
    then ("getUint32", "setUint32", false)
    else if str_eq go_type "int64"
    then ("getInt64", "setInt64", false)
    else if str_eq go_type "uint64"
    then ("getUint64", "setUint64", false)
    else if str_eq go_type "float32"
    then ("getFloat32", "setFloat32", false)
    else if str_eq go_type "float64"
    then ("getFloat64", "setFloat64", false)
    else if str_eq go_type "bool"
    then ("getUint8", "setUint8", true)
    else ("", "", false)

-- The methods of `ByteData` that read and write a protobuf scalar of a kind, and their bytes.
abbrev pub Access : Type 0
Access = (String × String × Bool) × ℕ

abbrev pub access_of : Kind → Access
access_of bool_kind = (("getUint8", "setUint8", true), 1)
access_of int32_kind = (("getInt32", "setInt32", false), 4)
access_of sint32_kind = (("getInt32", "setInt32", false), 4)
access_of sfixed32_kind = (("getInt32", "setInt32", false), 4)
access_of uint32_kind = (("getUint32", "setUint32", false), 4)
access_of fixed32_kind = (("getUint32", "setUint32", false), 4)
access_of int64_kind = (("getInt64", "setInt64", false), 8)
access_of sint64_kind = (("getInt64", "setInt64", false), 8)
access_of sfixed64_kind = (("getInt64", "setInt64", false), 8)
access_of uint64_kind = (("getUint64", "setUint64", false), 8)
access_of fixed64_kind = (("getUint64", "setUint64", false), 8)
access_of float_kind = (("getFloat32", "setFloat32", false), 4)
access_of double_kind = (("getFloat64", "setFloat64", false), 8)
access_of (other name) = (("", "", false), 0)

abbrev Agrees : Kind → String × ℕ → Type 0
Agrees k t = (dart_accessor t.0, t.1) ≡ access_of k

same_ok : {a b : String × ℕ} (k : Kind) → ok a ≡ ok b → Agrees k a → Agrees k b
same_ok k e h = subst (Agrees k) (ok_eq e) h
  where
    ok_eq : {a b : String × ℕ} → ok a ≡ ok b → a ≡ b
    ok_eq e = cc

scalar_kind-Agrees : (k : Kind) {t : String × ℕ} → scalar_kind k ≡ ok t → Agrees k t
unfolding scalar_kind dart_accessor
scalar_kind-Agrees bool_kind e = same_ok bool_kind e refl
scalar_kind-Agrees int32_kind e = same_ok int32_kind e refl
scalar_kind-Agrees sint32_kind e = same_ok sint32_kind e refl
scalar_kind-Agrees sfixed32_kind e = same_ok sfixed32_kind e refl
scalar_kind-Agrees uint32_kind e = same_ok uint32_kind e refl
scalar_kind-Agrees fixed32_kind e = same_ok fixed32_kind e refl
scalar_kind-Agrees int64_kind e = same_ok int64_kind e refl
scalar_kind-Agrees sint64_kind e = same_ok sint64_kind e refl
scalar_kind-Agrees sfixed64_kind e = same_ok sfixed64_kind e refl
scalar_kind-Agrees uint64_kind e = same_ok uint64_kind e refl
scalar_kind-Agrees fixed64_kind e = same_ok fixed64_kind e refl
scalar_kind-Agrees float_kind e = same_ok float_kind e refl
scalar_kind-Agrees double_kind e = same_ok double_kind e refl
scalar_kind-Agrees (other name) e = cc

scalar_type-kind :
    (f : FieldDescriptor) {t : String × ℕ} → scalar_type f ≡ ok t → scalar_kind f.kind ≡ ok t
unfolding scalar_type
scalar_type-kind f e = ground arith

-- In a layout that the Go package computes, the methods of `ByteData` that the Dart generator picks for
-- a field, from the field's Go type, are those of its protobuf kind, and access as many bytes as the
-- layout has for the field.
pub dart_accessor-compute :
    (m : List FieldDescriptor) {l : Layout}
    → compute m ≡ ok l
    → All (λ f. (dart_accessor f.go_type, f.size) ≡ access_of f.desc.kind) l.fields
dart_accessor-compute m {l} h =
    All-map IsTyped _ l.fields (λ f t. scalar_kind-Agrees f.desc.kind (scalar_type-kind f.desc t.0))
      (compute-IsPacked m h).typed
