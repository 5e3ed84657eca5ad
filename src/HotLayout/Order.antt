-- ===== src/HotLayout/Order.antt =====
-- The order in which a message declares its fields has no bearing on its layout.
use mathlib.Core.List.{Mem, Pairwise, Permᴰ, Perm, mem-cons, mem-cons_self, not-mem-nil}
use mathlib.Core.List.Perm
use mathlib.Core.List.Permᴰ
use mathlib.Core.Logic.{∥∥₁_elim}
use mathlib.Core.Logic.Or
use text.Mathlib.TextEquality.{IsScalar-prop}
use godash.Common.{
  ◌≡◌, ◌≢◌, ◌∙◌, refl, sym, ap₂, List, [], ◌∷◌, arith, ℕ, ◌≤◌, All, leb, leb→le, Bool-cases, inl,
  inr, subst,
}
use godash.HotLayout.{FieldDescriptor, Layout, Result, insert, sort, compute}

-- Two inserts at distinct numbers commute, whatever list they go into.
insert_comm :
    (f g : FieldDescriptor) (hs : List FieldDescriptor)
    → f.number ≢ g.number
    → insert f (insert g hs) ≡ insert g (insert f hs)
unfolding insert
insert_comm f g [] h = ground arith
insert_comm f g (x ∷ hs) h = ground (arith, insert_comm f g hs h)

abbrev pub Differ : FieldDescriptor → FieldDescriptor → Type 0
Differ f g = f.number ≢ g.number

abbrev pub DistinctNumbers : List FieldDescriptor → Type 0
DistinctNumbers [] = Unit {0}
DistinctNumbers (f ∷ fs) = All (Differ f) fs × DistinctNumbers fs

Differ-prop : (f g : FieldDescriptor) → IsProp (Differ f g)
Differ-prop f g = hlevel

Differ-symm : (f g : FieldDescriptor) → Differ f g → Differ g f
Differ-symm f g h e = h (sym e)

All-mem :
    (f : FieldDescriptor) (gs : List FieldDescriptor)
    → All (Differ f) gs
    → (g : FieldDescriptor) → Mem g gs
    → Differ f g
All-mem f [] a g m = absurd (not-mem-nil m)
All-mem f (x ∷ gs) a g m =
    Or.elim (Differ-prop f g) (mem-cons.0 m) (λ e. subst (Differ f) (sym e) a.0)
      (All-mem f gs a.1 g)

DistinctNumbers-Pairwise : (fs : List FieldDescriptor) → DistinctNumbers fs → Pairwise Differ fs
DistinctNumbers-Pairwise [] d = Pairwise.nil
DistinctNumbers-Pairwise (f ∷ fs) d =
    Pairwise.cons (All-mem f fs d.0) (DistinctNumbers-Pairwise fs d.1)

sort-swap :
    {a b a' b' : FieldDescriptor} (l : List FieldDescriptor)
    → a ≡ b'
    → b ≡ a'
    → Differ a b
    → insert a (insert b (sort l)) ≡ insert a' (insert b' (sort l))
sort-swap {a} {b} l e e' d =
    insert_comm a b (sort l) d ∙ ap₂ (λ x y. insert x (insert y (sort l))) e' e

sort-Permᴰ : {l m : List FieldDescriptor} → Permᴰ l m → Pairwise Differ l → sort l ≡ sort m
unfolding sort
sort-Permᴰ Permᴰ.nil d = refl
sort-Permᴰ (Permᴰ.cons e p) (Pairwise.cons _ d) = ap₂ insert e (sort-Permᴰ p d)
sort-Permᴰ (Permᴰ.swap e e') (Pairwise.cons h _) = sort-swap _ e e' (h _ mem-cons_self)
sort-Permᴰ (Permᴰ.trans p q) d =
    sort-Permᴰ p d ∙ sort-Permᴰ q (Perm.pairwise Differ-prop Differ-symm ∣ p ∣₁ d)

Layout-set : IsSet (Result Layout)
Layout-set = hlevel IsScalar-prop

-- Any two declaration orders of the same fields, with distinct numbers, give the same outcome:
-- the same layout, or the same error.
pub compute-perm :
    {l m : List FieldDescriptor} → Perm l m → DistinctNumbers l → compute l ≡ compute m
unfolding compute
compute-perm p d =
    ∥∥₁_elim p (Layout-set _ _) (λ q. rw (sort-Permᴰ q (DistinctNumbers-Pairwise _ d)))

-- Each number is at most all later ones.
abbrev pub Ascending : List FieldDescriptor → Type 0
Ascending [] = Unit {0}
Ascending (f ∷ fs) = All (λ g. f.number ≤ g.number) fs × Ascending fs

All-insert :
    (k : ℕ) (f : FieldDescriptor) (fs : List FieldDescriptor)
    → k ≤ f.number
    → All (λ g. k ≤ g.number) fs
    → All (λ g. k ≤ g.number) (insert f fs)
unfolding insert
All-insert k f [] h a = (h, tt)
All-insert k f (g ∷ gs) h a = ground (arith, All-insert k f gs h a.1)

All-above :
    (j k : ℕ) (fs : List FieldDescriptor)
    → j ≤ k
    → All (λ g. k ≤ g.number) fs
    → All (λ g. j ≤ g.number) fs
All-above j k [] h a = tt
All-above j k (g ∷ gs) h a = (omega arith, All-above j k gs h a.1)

insert-Ascending :
    (f : FieldDescriptor) (fs : List FieldDescriptor) → Ascending fs → Ascending (insert f fs)
unfolding insert
insert-Ascending f [] a = (tt, tt)
insert-Ascending f (g ∷ gs) a = elim (Bool-cases (leb f.number g.number)) [
  | inl e ↦ rw e ((leb→le _ _ e, All-above f.number g.number gs (leb→le _ _ e) a.0), a)
  | inr e ↦ rw e (All-insert g.number f gs (ground arith) a.0, insert-Ascending f gs a.1)
]

insert-Permᴰ : (f : FieldDescriptor) (fs : List FieldDescriptor) → Permᴰ (insert f fs) (f ∷ fs)
unfolding insert
insert-Permᴰ f [] = Permᴰ.cons refl Permᴰ.nil
insert-Permᴰ f (g ∷ gs) = elim (Bool-cases (leb f.number g.number)) [
  | inl e ↦ rw e (Permᴰ.refl (f ∷ g ∷ gs))
  | inr e ↦ rw e (Permᴰ.trans (Permᴰ.cons refl (insert-Permᴰ f gs)) (Permᴰ.swap refl refl))
]

sort-IsSorted : (fs : List FieldDescriptor) → Ascending (sort fs) × Permᴰ (sort fs) fs
unfolding sort
sort-IsSorted [] = (tt, Permᴰ.nil)
sort-IsSorted (f ∷ fs) =
    let (a, p) = sort-IsSorted fs in
    (insert-Ascending f (sort fs) a, Permᴰ.trans (insert-Permᴰ f (sort fs)) (Permᴰ.cons refl p))

-- The fields are laid out in ascending order of their numbers, and none is lost or invented.
pub sort_lem : (fs : List FieldDescriptor) → Ascending (sort fs) × Perm (sort fs) fs
sort_lem fs = let (a, p) = sort-IsSorted fs in (a, ∣ p ∣₁)
