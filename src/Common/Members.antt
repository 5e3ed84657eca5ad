-- ===== src/Common/Members.antt =====
-- Members of lists.
use Prim.Native.Nat.{ℕ}
use mathlib.Core.Path.{◌≡◌, sym, subst}
use mathlib.Core.Logic.{◌⊎◌, inl, inr}
use mathlib.Core.List.{List, [], ◌∷◌, ◌++◌}
use godash.Common.Lists.{All}

abbrev pub In : ℕ → List ℕ → Type 0
In w [] = ⊥
In w (x ∷ xs) = (w ≡ x) ⊎ In w xs

pub In-append_left : (w : ℕ) (xs ys : List ℕ) → In w xs → In w (xs ++ ys)
In-append_left w (x ∷ xs) ys (inl e) = inl e
In-append_left w (x ∷ xs) ys (inr m) = inr (In-append_left w xs ys m)
In-append_left w [] ys m = absurd m

pub In-append_right : (w : ℕ) (xs ys : List ℕ) → In w ys → In w (xs ++ ys)
In-append_right w [] ys m = m
In-append_right w (x ∷ xs) ys m = inr (In-append_right w xs ys m)

pub All-map {ℓ κ μ} :
    {A : Type ℓ} (P : A → Type κ) (Q : A → Type μ) (xs : List A)
    → ((x : A) → P x → Q x)
    → All P xs
    → All Q xs
All-map P Q [] f h = tt
All-map P Q (x ∷ xs) f h = (f x h.0, All-map P Q xs f h.1)

pub All-In {κ} : (P : ℕ → Type κ) (w : ℕ) (xs : List ℕ) → All P xs → In w xs → P w
All-In P w (x ∷ xs) h (inl e) = subst P (sym e) h.0
All-In P w (x ∷ xs) h (inr m) = All-In P w xs h.1 m
All-In P w [] h m = absurd m

-- An element of a list, of any type.
pub data Among {ℓ} {A : Type ℓ} (x : A) : List A → Type ℓ where
  among_first : (xs : List A) → Among x (x ∷ xs)
  among_later : (y : A) (xs : List A) → Among x xs → Among x (y ∷ xs)

pub All-Among {ℓ} : {A : Type ℓ} (xs : List A) → All (λ x. Among x xs) xs
All-Among [] = tt
All-Among (x ∷ xs) = (
  among_first xs,
  All-map (λ y. Among y xs) (λ y. Among y (x ∷ xs)) xs (λ y h. among_later x xs h) (All-Among xs),
)
