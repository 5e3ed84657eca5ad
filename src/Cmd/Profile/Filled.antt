-- ===== src/Cmd/Profile/Filled.antt =====
-- The first loop of `WriteProfile` in cmd/go_js_wasm_exec/profiler.go gives each node its location.
use godash.Common.{
  ℕ, ◌+◌, ◌≡◌, refl, sym, subst, ◌∙◌, ◌⊎◌, inl, inr, Bool-cases, none, some, Option-cases, List, [],
  ◌∷◌, ◌++◌, ◌==◌, ==→eq, ==→ne, In,
}
use godash.Common.Maps.{update}
use godash.Cmd.Names.{Text}
use godash.Cmd.Profile.{
  Node, Function, Location, LocMeta, FunctionName, Tables, fn_key, resolve_name, lookup_function,
  add_location, add_node, add_nodes,
}
use godash.Cmd.Profile.Tree.{ids}

-- A node with its own location.
unfoldable pub Known : (ℕ → LocMeta) → ℕ → Type 0
Known m id = (l : Location) × ((m id).loc ≡ some l) × (l.id ≡ id)

-- What the first loop has established: the nodes so far have their locations, and none a parent.
pub record IsFilled (m : ℕ → LocMeta) (done : List ℕ) : Type 0 where
  pub known : (id : ℕ) → In id done → Known m id
  pub no_parent : (id : ℕ) → (m id).parent ≡ none

pub some-some {ℓ} : {A : Type ℓ} (a b : A) → some a ≡ some b → a ≡ b
some-some a b e = cc

pub none_no_some {ℓ} : {A : Type ℓ} (a : A) → none ≡ some a → ⊥
none_no_some a e = cc

-- One turn of the first loop fills in the location of its node.
add_location-IsFilled :
    (t : Tables) (n : Node) (f : Function) (done : List ℕ)
    → IsFilled t.loc_map done
    → IsFilled (add_location t n f).loc_map (n.id ∷ done)
unfolding add_location update Known
add_location-IsFilled t n f done filled = record {
  known = λ id h. elim (Bool-cases (id == n.id)) [
    | inl e ↦ rw (update, e) (_, refl, sym (==→eq id n.id e))
    | inr e ↦ elim h [
      | inl same ↦ absurd (==→ne id n.id e same)
      | inr before ↦ rw (update, e) (filled.known id before)
    ]
  ];
  no_parent = λ id. elim (Bool-cases (id == n.id)) [
    | inl e ↦ rw (update, e) refl
    | inr e ↦ rw (update, e) (filled.no_parent id)
  ];
}

module _ (itoa : ℕ → Text) (wasm_function : Text → FunctionName) (func_map : ℕ → Text) where
  add_node_lem :
      (t t' : Tables) (n : Node)
      → add_node itoa wasm_function func_map t n ≡ some t'
      → (f : Function) × (u : Tables) × (u.loc_map ≡ t.loc_map) × (add_location u n f ≡ t')
  unfolding add_node
  add_node_lem t t' n e =
      elim (Option-cases
        (lookup_function (fn_key itoa wasm_function func_map n.call_frame) t.fn_map)) [
          | inr (f, h) ↦
              let c : add_node itoa wasm_function func_map t n ≡ some (add_location t n f) =
                rw (add_node, h) refl in
              (f, t, refl, some-some (add_location t n f) t' (sym c ∙ e))
          | inl h ↦
              elim (Option-cases
                (resolve_name itoa wasm_function func_map n.call_frame.function_name)) [
                  | inl k ↦
                      let c : add_node itoa wasm_function func_map t n ≡ none =
                        rw (add_node, h, k) refl in
                      absurd (none_no_some t' (sym c ∙ e))
                  | inr (name, k) ↦
                      let f : Function = record {
                        id = t.fn_id;
                        name = name;
                        system_name = name;
                        filename = n.call_frame.url;
                      } in
                      let u : Tables = record t {
                        fn_map = (fn_key itoa wasm_function func_map n.call_frame, f) ∷ t.fn_map;
                        fn_id = t.fn_id + 1;
                        functions = t.functions ++ f ∷ [];
                      } in
                      let c : add_node itoa wasm_function func_map t n ≡ some (add_location u n f) =
                        rw (add_node, h, k) refl in
                      (f, u, refl, some-some (add_location u n f) t' (sym c ∙ e))
                ]
        ]

  pub add_nodes-IsFilled :
      (t t' : Tables) (ns : List Node) (done : List ℕ)
      → add_nodes itoa wasm_function func_map t ns ≡ some t'
      → IsFilled t.loc_map done
      → (all : List ℕ) × IsFilled t'.loc_map all
        × ((id : ℕ) → In id done ⊎ In id (ids ns) → In id all)
  unfolding add_nodes
  add_nodes-IsFilled t t' [] done e filled = (
    done,
    subst (λ (x : Tables). IsFilled x.loc_map done) (some-some t t' e) filled,
    λ id h. elim h [ inl a ↦ a | inr b ↦ absurd b ],
  )
  add_nodes-IsFilled t t' (n ∷ ns) done e filled =
      elim (Option-cases (add_node itoa wasm_function func_map t n)) [
        | inl h ↦
            let c : add_nodes itoa wasm_function func_map t (n ∷ ns) ≡ none =
              rw (add_nodes, h) refl in
            absurd (none_no_some t' (sym c ∙ e))
        | inr (t2, h) ↦
            let c : add_nodes itoa wasm_function func_map t (n ∷ ns)
                ≡ add_nodes itoa wasm_function func_map t2 ns =
              rw (add_nodes, h) refl in
            let (f, u, same, eq) = add_node_lem t t2 n h in
            let filled2 : IsFilled t2.loc_map (n.id ∷ done) =
              subst (λ (x : Tables). IsFilled x.loc_map (n.id ∷ done)) eq
                (add_location-IsFilled u n f done
                  (subst (λ m. IsFilled m done) (sym same) filled)) in
            let (all, last, within) =
              add_nodes-IsFilled t2 t' ns (n.id ∷ done) (sym c ∙ e) filled2 in
            (all, last, λ id k. within id (moved id k))
      ]
    where
      moved : (id : ℕ) → In id done ⊎ In id (ids (n ∷ ns)) → In id (n.id ∷ done) ⊎ In id (ids ns)
      moved id (inl a) = inl (inr a)
      moved id (inr (inl b)) = inl (inl b)
      moved id (inr (inr c)) = inr c
