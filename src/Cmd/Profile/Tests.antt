-- ===== src/Cmd/Profile/Tests.antt =====
-- A chain of three nodes, and two functions that the profile takes for one.
use godash.Common.{
  ℕ, ◌+◌, ◌/◌, ◌%◌, ◌<◌, ◌≡◌, refl, sym, ◌∙◌, Bool-cases, inl, inr, if◌then◌else◌, ltb, ◌==◌, ==→eq,
  none, some, List, [], ◌∷◌, map, arith,
}
use godash.Cmd.Names.{Text}
use godash.Cmd.Services.{same_text}
use godash.Cmd.Profile.{
  Node, Location, LocMeta, FunctionName, named, start, add_nodes, add_node, add_location, fn_key,
  resolve_name, lookup_function, sample, locate,
}
use godash.Cmd.Profile.Chain.{Ancestors, sample-Ancestors}
use godash.Cmd.Profile.Tree.{has, parent_in, parent_of}

abbrev itoa : ℕ → Text
itoa n = if ltb n 10 then (48 + n) ∷ [] else (48 + n / 10) ∷ (48 + n % 10) ∷ []

abbrev plain : Text → FunctionName
plain name = named

abbrev frame : ℕ → ℕ → ℕ → List ℕ → Node
frame id line column children = record {
  id = id;
  call_frame = record {
    function_name = 102 ∷ [];
    url = id ∷ [];
    line_number = line;
    column_number = column;
  };
  children = children;
}

-- `f` at line 1 and column 23 and `f` at line 12 and column 3 have the same key.
names_test :
    map
      (λ (l : Location). l.function.filename)
      (elim (add_nodes itoa plain (λ i. []) start (frame 1 1 23 [] ∷ frame 2 12 3 [] ∷ [])) [
        | none ↦ []
        | some t ↦ t.locations
      ])
    ≡ (1 ∷ []) ∷ (1 ∷ []) ∷ []
unfolding add_nodes add_node fn_key lookup_function resolve_name add_location same_text start
names_test = refl

abbrev nodes : List Node
nodes = frame 1 1 1 (2 ∷ []) ∷ frame 2 1 2 (3 ∷ []) ∷ frame 3 1 3 [] ∷ []

abbrev located : List Location × (ℕ → LocMeta)
located = elim (locate itoa plain (λ i. []) nodes) [
  | none ↦ ([], λ id. record { loc = none; parent = none })
  | some r ↦ r
]

locate-nodes : locate itoa plain (λ i. []) nodes ≡ some located
unfolding locate add_nodes add_node fn_key lookup_function resolve_name add_location same_text start
locate-nodes = refl

same_number : (a b : ℕ) → some a ≡ some b → a ≡ b
same_number a b e = cc

no_number : (a : ℕ) → none ≡ some a → ⊥
no_number a e = cc

nodes_ordered : (c p : ℕ) → parent_of nodes c ≡ some p → p < c
unfolding parent_of parent_in has
nodes_ordered c p h = elim (Bool-cases (c == 3)) [
  | inl e ↦
      let two : parent_of nodes c ≡ some 2 = rw (parent_of, e) refl in
      omega (arith, ==→eq c 3 e, same_number 2 p (sym two ∙ h))
  | inr e ↦ elim (Bool-cases (c == 2)) [
    | inl f ↦
        let one : parent_of nodes c ≡ some 1 = rw (parent_of, e, f) refl in
        omega (arith, ==→eq c 2 f, same_number 1 p (sym one ∙ h))
    | inr f ↦
        let root : parent_of nodes c ≡ none = rw (parent_of, e, f) refl in
        absurd (no_number p (sym root ∙ h))
  ]
]

sample-Ancestors_example :
    (leaf : Location) × (above : List Location) × (sample located.1 3 3 ≡ some (some leaf, above))
    × (leaf.id ≡ 3)
    × Ancestors nodes 3 above
sample-Ancestors_example =
    sample-Ancestors itoa plain (λ i. []) nodes located.0 located.1 (λ id. id) 3 3 locate-nodes
      nodes_ordered (inr (inr (inl refl))) (omega arith)
