-- ===== src/Common/Assoc.antt =====
-- Go maps with integer keys that the code ranges over, as lists of entries with each key at most once.
use Prim.Native.Nat.{ℕ}
use mathlib.Core.Logic.{◌≢◌, inl, inr}
use mathlib.Core.Path.{◌≡◌, refl, ap, sym, ◌∙◌}
use mathlib.Core.Option.{Option, none, some}
use mathlib.Core.List.{List, [], ◌∷◌}
use godash.Common.Tests.{◌==◌, if◌then◌else◌, Bool-cases, ==→eq, ==-refl, ==_of_ne}

module _ {ℓ} {A : Type ℓ} where
  -- `v, ok := m[k]`
  unfoldable pub lookup : ℕ → List (ℕ × A) → Option A
  lookup k [] = none
  lookup k ((j, v) ∷ m) = if j == k then some v else lookup k m

  -- `delete(m, k)`
  unfoldable pub erase : ℕ → List (ℕ × A) → List (ℕ × A)
  erase k [] = []
  erase k ((j, v) ∷ m) = let rest = erase k m in if j == k then rest else (j, v) ∷ rest

  -- `m[k] = v`
  unfoldable pub store : ℕ → A → List (ℕ × A) → List (ℕ × A)
  store k v m = (k, v) ∷ erase k m

  pub erase_absent : (k : ℕ) (m : List (ℕ × A)) → lookup k m ≡ none → erase k m ≡ m
  unfolding lookup erase
  erase_absent k [] e = refl
  erase_absent k ((j, v) ∷ m) e = elim (Bool-cases (j == k)) [
    | inl d ↦ absurd (some_ne_none (rw d at e))
    | inr d ↦ rw d (ap (λ r. (j, v) ∷ r) (erase_absent k m (rw d at e)))
  ]
    where
      some_ne_none : some v ≡ none → ⊥
      some_ne_none p = cc

  pub lookup-erase : (k : ℕ) (m : List (ℕ × A)) → lookup k (erase k m) ≡ none
  unfolding lookup erase
  lookup-erase k [] = refl
  lookup-erase k ((j, v) ∷ m) = elim (Bool-cases (j == k)) [
    | inl d ↦ rw d (lookup-erase k m)
    | inr d ↦ rw (d, d) (lookup-erase k m)
  ]

  pub lookup-erase_other : (k j : ℕ) (m : List (ℕ × A)) → j ≢ k → lookup j (erase k m) ≡ lookup j m
  unfolding lookup erase
  lookup-erase_other k j [] ne = refl
  lookup-erase_other k j ((i, v) ∷ m) ne = elim (Bool-cases (i == k)) [
    | inl d ↦ rw (d, ==_of_ne i j (λ e. ne (sym e ∙ ==→eq i k d))) (lookup-erase_other k j m ne)
    | inr d ↦ rw (d, lookup-erase_other k j m ne) refl
  ]

  pub lookup-store : (k : ℕ) (v : A) (m : List (ℕ × A)) → lookup k (store k v m) ≡ some v
  unfolding lookup store
  lookup-store k v m = rw (==-refl k) refl

  pub lookup-store_other :
      (k j : ℕ) (v : A) (m : List (ℕ × A)) → j ≢ k → lookup j (store k v m) ≡ lookup j m
  unfolding lookup store
  lookup-store_other k j v m ne = rw (==_of_ne k j (λ e. ne (sym e))) (lookup-erase_other k j m ne)

  -- Deleting what was stored gives the map back, if the key was absent.
  pub erase-store :
      (k : ℕ) (v : A) (m : List (ℕ × A)) → lookup k m ≡ none → erase k (store k v m) ≡ m
  unfolding erase store
  erase-store k v m e = rw (==-refl k) (ap (erase k) (erase_absent k m e) ∙ erase_absent k m e)
