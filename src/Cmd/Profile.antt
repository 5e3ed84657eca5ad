-- ===== src/Cmd/Profile.antt =====
-- `WriteProfile` of cmd/go_js_wasm_exec/profiler.go: a profile of the browser as locations and samples.
-- Numbers of lines and columns are printed by `itoa`; `wasm_function` is the regular expression with
-- `Atoi` of what it finds; `func_map` has the names in the binary. A map gives the zero value for a key
-- that it has not. Left out: the header fields, and the writing and the check by the pprof library.
pub mod Chain
pub mod Tests
pub mod Filled
pub mod Tree
use godash.Common.{ℕ, zero, suc, ◌+◌, Option, none, some, List, [], ◌∷◌, ◌++◌, if◌then◌else◌}
use godash.Common.Maps.{update}
use godash.Cmd.Names.{Text}
use godash.Cmd.Services.{same_text}

pub record CallFrame : Type 0 where
  pub function_name : Text
  pub url : Text
  pub line_number : ℕ
  pub column_number : ℕ

pub record Node : Type 0 where
  pub id : ℕ
  pub call_frame : CallFrame
  pub children : List ℕ

pub record Function : Type 0 where
  pub id : ℕ
  pub name : Text
  pub system_name : Text
  pub filename : Text

pub record Location : Type 0 where
  pub id : ℕ
  pub function : Function
  pub line : ℕ

-- `locMeta`; none is a nil pointer.
pub record LocMeta : Type 0 where
  pub loc : Option Location
  pub parent : Option Location

-- What the name of a function is.
pub data FunctionName : Type 0 where
  named bad_index : FunctionName
  wasm_index : ℕ → FunctionName

-- The variables of the first loop.
pub record Tables : Type 0 where
  pub fn_map : List (Text × Function)
  pub fn_id : ℕ
  pub functions : List Function
  pub loc_map : ℕ → LocMeta
  pub locations : List Location

unfoldable pub lookup_function : Text → List (Text × Function) → Option Function
lookup_function key [] = none
lookup_function key ((k, f) ∷ rest) =
    let later = lookup_function key rest in if same_text key k then some f else later

-- The second loop, over the children of a node and over the nodes.
unfoldable pub link_children : Option Location → List ℕ → (ℕ → LocMeta) → ℕ → LocMeta
link_children parent [] m = m
link_children parent (c ∷ cs) m =
    link_children parent cs (update m c (record (m c) { parent = parent }))

unfoldable pub link : List Node → (ℕ → LocMeta) → ℕ → LocMeta
link [] m = m
link (n ∷ ns) m = link ns (link_children (m n.id).loc n.children m)

-- The walk up the parents, on fuel; none is a walk without an end.
unfoldable pub walk : (ℕ → LocMeta) → ℕ → Option Location → Option (List Location)
walk m fuel none = some []
walk m zero (some parent) = none
walk m (suc fuel) (some parent) = elim (walk m fuel (m parent.id).parent) [
  | none ↦ none
  | some rest ↦ some (parent ∷ rest)
]

-- One turn of the last loop: the leaf, and the locations above it.
unfoldable pub sample : (ℕ → LocMeta) → ℕ → ℕ → Option (Option Location × List Location)
sample m fuel id = elim (walk m fuel (m id).parent) [
  | none ↦ none
  | some rest ↦ some ((m id).loc, rest)
]

unfoldable pub add_location : Tables → Node → Function → Tables
add_location t n f =
    let loc : Location = record { id = n.id; function = f; line = n.call_frame.line_number } in
    record t {
      loc_map = update t.loc_map n.id (record { loc = some loc; parent = none });
      locations = t.locations ++ loc ∷ [];
    }

unfoldable pub start : Tables
start = record {
  fn_map = [];
  fn_id = 1;
  functions = [];
  loc_map = λ id. record { loc = none; parent = none };
  locations = [];
}

module _ (itoa : ℕ → Text) (wasm_function : Text → FunctionName) (func_map : ℕ → Text) where
  unfoldable pub fn_key : CallFrame → Text
  fn_key cf = cf.function_name ++ (itoa cf.line_number ++ itoa cf.column_number)

  unfoldable pub resolve_name : Text → Option Text
  resolve_name name = elim (wasm_function name) [
    | named ↦ some name
    | bad_index ↦ none
    | wasm_index i ↦ some (func_map i)
  ]

  -- One turn of the first loop; none is the error.
  unfoldable pub add_node : Tables → Node → Option Tables
  add_node t n = elim (lookup_function (fn_key n.call_frame) t.fn_map) [
    | some f ↦ some (add_location t n f)
    | none ↦ elim (resolve_name n.call_frame.function_name) [
      | none ↦ none
      | some name ↦
          let f : Function = record {
            id = t.fn_id;
            name = name;
            system_name = name;
            filename = n.call_frame.url;
          } in
          some (
            add_location
              (record t {
                fn_map = (fn_key n.call_frame, f) ∷ t.fn_map;
                fn_id = t.fn_id + 1;
                functions = t.functions ++ f ∷ [];
              })
              n f)
    ]
  ]

  unfoldable pub add_nodes : Tables → List Node → Option Tables
  add_nodes t [] = some t
  add_nodes t (n ∷ ns) = elim (add_node t n) [ none ↦ none | some t' ↦ add_nodes t' ns ]

  -- The locations and the table from which the samples are taken.
  unfoldable pub locate : List Node → Option (List Location × (ℕ → LocMeta))
  locate nodes = elim (add_nodes start nodes) [
    | none ↦ none
    | some t ↦ some (t.locations, link nodes t.loc_map)
  ]
