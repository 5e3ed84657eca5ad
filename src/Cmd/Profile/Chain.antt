-- ===== src/Cmd/Profile/Chain.antt =====
-- The samples of cmd/go_js_wasm_exec/profiler.go walk up the call tree.
use godash.Common.{
  ℕ, zero, suc, ◌≤◌, ◌<◌, ◌≡◌, refl, sym, ap, subst, ◌∙◌, ◌⊎◌, inl, inr, Bool-cases, Option, none,
  some, Option-cases, List, [], ◌∷◌, if◌then◌else◌, if_true, if_false, In, arith,
}
use godash.Cmd.Names.{Text}
use godash.Cmd.Profile.{
  Node, Location, LocMeta, FunctionName, link, walk, sample, add_nodes, start, locate,
}
use godash.Cmd.Profile.Filled.{Known, IsFilled, some-some, none_no_some, add_nodes-IsFilled}
use godash.Cmd.Profile.Tree.{has, parent_in, parent_of, ids, at, link-loc, link-parent}

-- The locations above the node `id` are those of its ancestors in the tree, up to a root.
unfoldable pub Ancestors : List Node → ℕ → List Location → Type 0
Ancestors nodes id [] = parent_of nodes id ≡ none
Ancestors nodes id (l ∷ ls) = (parent_of nodes id ≡ some l.id) × Ancestors nodes l.id ls

parent_in-In :
    (ns : List Node) (found : Option ℕ) (id p : ℕ)
    → parent_in found ns id ≡ some p
    → (found ≡ some p) ⊎ In p (ids ns)
unfolding parent_in
parent_in-In [] found id p e = inl e
parent_in-In (n ∷ ns) found id p e =
    elim (parent_in-In ns (if has id n.children then some n.id else found) id p e) [
      | inr later ↦ inr (inr later)
      | inl here ↦ elim (Bool-cases (has id n.children)) [
        | inl h ↦
            let mine : n.id ≡ p = some-some n.id p (sym (if_true (some n.id) found h) ∙ here) in
            inr (inl (sym mine))
        | inr h ↦ inl (sym (if_false (some n.id) found h) ∙ here)
      ]
    ]

module _ (nodes : List Node) (m : ℕ → LocMeta) (all : List ℕ) (filled : IsFilled m all)
    (covers : (id : ℕ) → In id (ids nodes) → In id all) (rank : ℕ → ℕ)
    (ordered : (id p : ℕ) → parent_of nodes id ≡ some p → rank p < rank id) where
  -- The parent of a node: there is none, or it is the location of the parent in the tree.
  parent_cases :
      (id : ℕ)
      → ((parent_of nodes id ≡ none) × ((link nodes m id).parent ≡ none))
        ⊎ ((l : Location) × (parent_of nodes id ≡ some l.id) × ((link nodes m id).parent ≡ some l))
  unfolding parent_of Known at
  parent_cases id =
      let parent : (link nodes m id).parent ≡ at m (parent_of nodes id) =
        link-parent nodes m none id (filled.no_parent id) in
      elim (Option-cases (parent_of nodes id)) [
        | inl h ↦ inl (h, parent ∙ ap (at m) h)
        | inr (p, h) ↦
            let listed : In p (ids nodes) = elim (parent_in-In nodes none id p h) [
              | inl e ↦ absurd (none_no_some p e)
              | inr e ↦ e
            ] in
            let (l, here, same) = filled.known p (covers p listed) in
            inr (l, h ∙ ap some (sym same), parent ∙ ap (at m) h ∙ here)
      ]

  walk_up :
      (fuel id : ℕ)
      → rank id ≤ fuel
      → (above : List Location) × (walk (link nodes m) fuel (link nodes m id).parent ≡ some above)
        × Ancestors nodes id above
  unfolding walk Ancestors
  walk_up zero id enough = elim (parent_cases id) [
    | inl (root, e) ↦ ([], rw e refl, root)
    | inr (l, h, e) ↦ absurd (omega (arith, ordered id l.id h, enough))
  ]
  walk_up (suc fuel) id enough = elim (parent_cases id) [
    | inl (root, e) ↦ ([], rw e refl, root)
    | inr (l, h, e) ↦
        let (above, w, up) = walk_up fuel l.id (omega (arith, ordered id l.id h, enough)) in
        (l ∷ above, rw (e, walk, w) refl, (h, up))
  ]

-- On a profile without a cycle, the sample of a node starts with the location of that node, and goes
-- on with those of its ancestors in the tree up to a root. A function `rank` that is smaller for a
-- parent shows that there is no cycle; the rank of the node is enough fuel, whatever the names are.
pub sample-Ancestors :
    (itoa : ℕ → Text) (wasm_function : Text → FunctionName) (func_map : ℕ → Text)
    (nodes : List Node) (locations : List Location) (m : ℕ → LocMeta) (rank : ℕ → ℕ) (fuel id : ℕ)
    → locate itoa wasm_function func_map nodes ≡ some (locations, m)
    → ((c p : ℕ) → parent_of nodes c ≡ some p → rank p < rank c)
    → In id (ids nodes)
    → rank id ≤ fuel
    → (leaf : Location) × (above : List Location) × (sample m fuel id ≡ some (some leaf, above))
      × (leaf.id ≡ id)
      × Ancestors nodes id above
unfolding locate start sample Known
sample-Ancestors itoa wasm_function func_map nodes locations m rank fuel id e ordered listed
      enough =
    elim (Option-cases (add_nodes itoa wasm_function func_map start nodes)) [
      | inl h ↦
          let c : locate itoa wasm_function func_map nodes ≡ none = rw (locate, h) refl in
          absurd (none_no_some (locations, m) (sym c ∙ e))
      | inr (t, h) ↦
          let c : locate itoa wasm_function func_map nodes
              ≡ some (t.locations, link nodes t.loc_map) =
            rw (locate, h) refl in
          let table : link nodes t.loc_map ≡ m =
            ap (λ p. p.1)
              (some-some (t.locations, link nodes t.loc_map) (locations, m) (sym c ∙ e)) in
          let (all, filled, within) =
            add_nodes-IsFilled itoa wasm_function func_map start t nodes [] h
              (record { known = λ i k. absurd k; no_parent = λ i. refl }) in
          let covers : (i : ℕ) → In i (ids nodes) → In i all = λ i k. within i (inr k) in
          let (above, w, up) =
            walk_up nodes t.loc_map all filled covers rank ordered fuel id enough in
          let (leaf, here, same) = filled.known id (covers id listed) in
          let leaf_here = link-loc nodes t.loc_map id ∙ here in
          subst
            (λ x.
              (leaf : Location) × (above : List Location) × (sample x fuel id
                ≡ some (some leaf, above))
              × (leaf.id ≡ id)
              × Ancestors nodes id above)
            table (leaf, above, rw (sample, w, leaf_here) refl, same, up)
    ]
