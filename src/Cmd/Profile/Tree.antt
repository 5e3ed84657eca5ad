-- ===== src/Cmd/Profile/Tree.antt =====
-- The tree of a profile, and the parents that the second loop of `WriteProfile` in
-- cmd/go_js_wasm_exec/profiler.go leaves.
use godash.Common.{
  ℕ, ◌≡◌, refl, sym, ap, ◌∙◌, Bool, true, false, ◌||◌, inl, inr, Bool-cases, Option, none, some,
  List, [], ◌∷◌, map, if◌then◌else◌, ◌==◌, ==→eq,
}
use godash.Common.Maps.{update}
use godash.Cmd.Profile.{Node, Location, LocMeta, link_children, link}

unfoldable pub has : ℕ → List ℕ → Bool
has id [] = false
has id (c ∷ cs) = (id == c) || has id cs

-- The last of the nodes that has `id` among its children, or else `found`.
unfoldable pub parent_in : Option ℕ → List Node → ℕ → Option ℕ
parent_in found [] id = found
parent_in found (n ∷ ns) id = parent_in (if has id n.children then some n.id else found) ns id

-- The parent of a node in the tree.
unfoldable pub parent_of : List Node → ℕ → Option ℕ
parent_of nodes id = parent_in none nodes id

abbrev pub ids : List Node → List ℕ
ids nodes = map (λ (n : Node). n.id) nodes

-- The location of a node, if there is one.
unfoldable pub at : (ℕ → LocMeta) → Option ℕ → Option Location
at m none = none
at m (some id) = (m id).loc

link_children-loc :
    (p : Option Location) (cs : List ℕ) (m : ℕ → LocMeta) (id : ℕ)
    → (link_children p cs m id).loc ≡ (m id).loc
unfolding link_children update
link_children-loc p [] m id = refl
link_children-loc p (c ∷ cs) m id = link_children-loc p cs _ id ∙ elim (Bool-cases (id == c)) [
  | inl e ↦ rw (update, e) (ap (λ x. (m x).loc) (sym (==→eq id c e)))
  | inr e ↦ rw (update, e) refl
]

if_same {ℓ} : {A : Type ℓ} (b : Bool) (x : A) → (if b then x else x) ≡ x
if_same true x = refl
if_same false x = refl

link_children-parent :
    (p : Option Location) (cs : List ℕ) (m : ℕ → LocMeta) (id : ℕ)
    → (link_children p cs m id).parent ≡ (if has id cs then p else (m id).parent)
unfolding link_children update has
link_children-parent p [] m id = refl
link_children-parent p (c ∷ cs) m id =
    link_children-parent p cs _ id ∙ elim (Bool-cases (id == c)) [
      | inl e ↦ rw (update, e) (if_same (has id cs) p)
      | inr e ↦ rw (update, e) refl
    ]

pub link-loc : (ns : List Node) (m : ℕ → LocMeta) (id : ℕ) → (link ns m id).loc ≡ (m id).loc
unfolding link
link-loc [] m id = refl
link-loc (n ∷ ns) m id = link-loc ns _ id ∙ link_children-loc (m n.id).loc n.children m id

at-link_children :
    (p : Option Location) (cs : List ℕ) (m : ℕ → LocMeta) (o : Option ℕ)
    → at (link_children p cs m) o ≡ at m o
unfolding at
at-link_children p cs m none = refl
at-link_children p cs m (some id) = link_children-loc p cs m id

-- The parent that the second loop leaves is the location of the parent in the tree.
pub link-parent :
    (ns : List Node) (m : ℕ → LocMeta) (found : Option ℕ) (id : ℕ)
    → (m id).parent ≡ at m found
    → (link ns m id).parent ≡ at m (parent_in found ns id)
unfolding link parent_in at
link-parent [] m found id e = e
link-parent (n ∷ ns) m found id e =
    let p = (m n.id).loc in
    let m' = link_children p n.children m in
    let found' = if has id n.children then some n.id else found in
    link-parent ns m' found' id (
      link_children-parent p n.children m id
      ∙ next (has id n.children)
      ∙ sym (at-link_children p n.children m found'))
    ∙ at-link_children p n.children m (parent_in found' ns id)
  where
    next :
        (b : Bool)
        → (if b then (m n.id).loc else (m id).parent) ≡ at m (if b then some n.id else found)
    next true = refl
    next false = e
