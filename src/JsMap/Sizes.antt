-- ===== src/JsMap/Sizes.antt =====
-- How the writes change the number of entries.
use blackcat_darkmesh_gatewa.Base.{
  ◌+◌, ◌≤◌, ◌≡◌, refl, String, false, none, [], ◌∷◌, eq_iff, arith, if◌then◌else◌,
}
use blackcat_darkmesh_gatewa.JsMap.{JsMap, get, set, delete, has, IsUnique, size}

module _ {ℓ} {V : Type ℓ} where
  pub size-set :
      (k : String) (v : V) (m : JsMap V)
      → size (set k v m) ≡ (if has k m then size m else size m + 1)
  unfolding get set
  size-set k v [] = omega arith
  size-set k v ((j, w) ∷ m) = ground (arith, size-set k v m)

  pub delete_absent : (k : String) (m : JsMap V) → has k m ≡ false → delete k m ≡ m
  unfolding get delete
  delete_absent k [] h = refl
  delete_absent k ((j, w) ∷ m) h = ground (arith, delete_absent k m)

  pub size-delete :
      (k : String) (m : JsMap V)
      → IsUnique m
      → size m ≡ (if has k m then size (delete k m) + 1 else size (delete k m))
  unfolding get delete
  size-delete k [] u = refl
  size-delete k ((j, w) ∷ m) u = ground (arith, size-delete k m, delete_absent k m, eq_iff j k)

  pub size-delete-le : (k : String) (m : JsMap V) → size (delete k m) ≤ size m
  unfolding delete
  size-delete-le k [] = omega arith
  size-delete-le k ((j, w) ∷ m) = ground (arith, size-delete-le k m)

  pub get_zero : (k : String) (m : JsMap V) → size m ≡ 0 → get k m ≡ none
  unfolding get
  get_zero k [] h = refl
  get_zero k (e ∷ m) h = absurd (omega arith)
