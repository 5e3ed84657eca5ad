-- ===== src/HotLayout/Tests.antt =====
-- Tests of internal/hotlayout/hotlayout.go, and its theorems at concrete messages.
use Prim.Native.String.{String}
use mathlib.Core.List.{Perm, Permᴰ}
use godash.Common.{ℕ, map, ◌≡◌, ◌≤◌, ◌*◌, refl, true, false, List, [], ◌∷◌, ◌↔◌, All, arith, length}
use godash.HotLayout.{
  Kind, bool_kind, int64_kind, float_kind, other, FieldDescriptor, Layout, field_error,
  repeated_unsupported, ok, err, place, insert, sort, scalar_type, align_up, lay, compute, eligible,
}
use godash.HotLayout.Order.{Ascending, compute-perm, sort_lem}
use godash.HotLayout.Packing.{IsPacked, compute-IsPacked}
use godash.HotLayout.Bounds.{Apart, compute-Apart, compute-size-le}
use godash.HotLayout.Accessor.{dart_accessor, access_of, dart_accessor-compute}
use godash.HotLayout.Methods.{Method, collect_hot_methods, dart_all, map-collect_hot_methods}
use godash.HotLayout.Errors.{LowestBad, IsScalar, compute-LowestBad, eligible_iff}

abbrev scalar : String → ℕ → Kind → FieldDescriptor
scalar name number kind = record {
  name = name;
  number = number;
  is_map = false;
  is_list = false;
  in_oneof = false;
  has_presence = false;
  kind = kind;
}

abbrev flag : FieldDescriptor
flag = scalar "flag" 1 bool_kind

abbrev total : FieldDescriptor
total = scalar "total" 2 int64_kind

abbrev ratio : FieldDescriptor
ratio = scalar "ratio" 3 float_kind

abbrev tags : FieldDescriptor
tags = record ratio { name = "tags"; number = 4; is_list = true }

abbrev mixed : List FieldDescriptor
mixed = ratio ∷ flag ∷ total ∷ []

abbrev mixed_layout : Layout
mixed_layout = record {
  fields =
      place flag ("bool", 1) 0 ∷ place total ("int64", 8) 8 ∷ place ratio ("float32", 4) 16 ∷ [];
  size = 24;
}

compute-mixed : compute mixed ≡ ok mixed_layout
unfolding compute lay sort insert scalar_type align_up
compute-mixed = refl

compute-tags : compute (tags ∷ mixed) ≡ err (field_error "tags" repeated_unsupported)
unfolding compute lay sort insert scalar_type align_up
compute-tags = refl

compute-nil : compute [] ≡ ok (record { fields = []; size = 0 })
unfolding compute lay sort insert scalar_type align_up
compute-nil = refl

eligible-message : eligible (scalar "m" 1 (other "message") ∷ []) ≡ false
unfolding eligible compute lay sort insert scalar_type align_up
eligible-message = refl

compute-IsPacked_example : IsPacked (sort mixed) mixed_layout
compute-IsPacked_example = compute-IsPacked mixed compute-mixed

compute-Apart_example : Apart mixed_layout.fields 24
compute-Apart_example = compute-Apart mixed compute-mixed

compute-size-le_test : 24 ≤ 8 * length mixed
compute-size-le_test = compute-size-le mixed compute-mixed

compute-LowestBad_example : LowestBad (tags ∷ mixed) (field_error "tags" repeated_unsupported)
compute-LowestBad_example = compute-LowestBad (tags ∷ mixed) compute-tags

compute-perm_example : compute mixed ≡ compute (flag ∷ ratio ∷ total ∷ [])
compute-perm_example = compute-perm {l = mixed} ∣ Permᴰ.swap refl refl ∣₁ (omega arith)

sort_lem_test : Ascending (sort mixed) × Perm (sort mixed) mixed
sort_lem_test = sort_lem mixed

eligible_iff_test : (eligible mixed ≡ true) ↔ All IsScalar mixed
eligible_iff_test = eligible_iff mixed

-- A hot method, and one with a list in its request.
abbrev service_methods : List (ℕ × List (Method ℕ))
service_methods =
    (
      1,
      record {
        name = 2;
        client_streaming = false;
        server_streaming = false;
        hot = true;
        input = mixed;
        output = flag ∷ [];
      }
          ∷ record {
            name = 3;
            client_streaming = false;
            server_streaming = false;
            hot = true;
            input = tags ∷ [];
            output = [];
          }
          ∷ [],
    )
    ∷ []

map-collect_hot_methods_example :
    map (λ s. s.hot_method) (collect_hot_methods service_methods) ≡ dart_all service_methods
map-collect_hot_methods_example = map-collect_hot_methods service_methods

dart_accessor-compute_example :
    All (λ f. (dart_accessor f.go_type, f.size) ≡ access_of f.desc.kind) mixed_layout.fields
dart_accessor-compute_example = dart_accessor-compute mixed compute-mixed
