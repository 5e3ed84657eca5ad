-- ===== src/Common/Maps.antt =====
-- Go maps with integer keys, as functions.
use Prim.Native.Nat.{ℕ}
use mathlib.Core.Logic.{◌≢◌}
use mathlib.Core.Path.{◌≡◌, fun_ext}
use native.Mathlib.Omega.{arith}
use godash.Common.Tests.{◌==◌, if◌then◌else◌}

-- `m[k] = v`
unfoldable pub update {ℓ} : {A : Type ℓ} → (ℕ → A) → ℕ → A → ℕ → A
update m k v j = if j == k then v else m j

pub update_at {ℓ} : {A : Type ℓ} (m : ℕ → A) (k : ℕ) (v : A) → update m k v k ≡ v
unfolding update
update_at m k v = ground arith

pub update_other {ℓ} : {A : Type ℓ} (m : ℕ → A) (k j : ℕ) (v : A) → j ≢ k → update m k v j ≡ m j
unfolding update
update_other m k j v h = ground arith

pub update-update {ℓ} :
    {A : Type ℓ} (m : ℕ → A) (k : ℕ) (v w : A) → update (update m k v) k w ≡ update m k w
unfolding update
update-update m k v w = fun_ext λ j. ground arith
