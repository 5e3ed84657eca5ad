-- ===== src/Cmd/Project/Checkout.antt =====
-- Which checkout a project gets.
use godash.Common.{
  ◌≡◌, ◌⊎◌, inl, inr, refl, Bool, true, false, not, Option, [], if_elim, Option-cases,
}
use godash.Cmd.Names.{Text}
use godash.Cmd.Project.{
  Dependency, by_path, by_version, not_found, is_path, is_version, Resolved, provision_failed,
  not_a_module, checkout, accept, resolve, godash_path,
}

-- A checkout has the godash module, or is the empty path of a project that pins a version; only other
-- projects fail, and provisioning fails only for a path dependency.
abbrev pub IsSound : (Text → Bool) → Dependency → Resolved → Type 0
IsSound has_module dep (checkout p) = (has_module p ≡ true) ⊎ ((p ≡ []) × (is_version dep ≡ true))
IsSound has_module dep not_a_module = is_version dep ≡ false
IsSound has_module dep provision_failed = is_path dep ≡ true

module _ (absolute : Text → Text) (has_module : Text → Bool) (provisioned : Option Text) where
  accept-IsSound :
      (dep : Dependency) (path : Text)
      → IsSound has_module dep (accept absolute has_module provisioned dep path)
  unfolding accept
  accept-IsSound dep path =
      if_elim (IsSound has_module dep) (has_module path) _ _ (λ e. inl e)
        λ _. if_elim (IsSound has_module dep) (is_version dep) _ _ (λ e. inr (refl, e)) λ e. e

  resolve-IsSound :
      (dep : Dependency) (path : Text)
      → IsSound has_module dep (resolve absolute has_module provisioned dep path)
  unfolding resolve
  resolve-IsSound by_version path = accept-IsSound by_version path
  resolve-IsSound not_found path = accept-IsSound not_found path
  resolve-IsSound by_path path =
      if_elim (IsSound has_module by_path) (not (has_module path)) _ _
        (λ _. elim (Option-cases provisioned) [
          | inl e ↦ rw e refl
          | inr (p, e) ↦ rw e (accept-IsSound by_path _)
        ])
        λ _. accept-IsSound by_path path

  -- Whatever the settings, the path that is chosen is that of a godash module, or is empty for a
  -- project that pins a version; a project that pins a version never fails, and provisioning
  -- fails only for a path dependency.
  pub godash_path-IsSound :
      (override : Text) (custom : Option Text) (environment : Text) (dep : Dependency)
      → IsSound has_module dep
          (godash_path absolute has_module provisioned override custom environment dep)
  unfolding godash_path
  godash_path-IsSound override custom environment dep = resolve-IsSound dep _
