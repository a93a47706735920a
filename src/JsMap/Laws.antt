-- ===== src/JsMap/Laws.antt =====
-- Reads after writes, and the keys' uniqueness.
use blackcat_darkmesh_gatewa.Base.{
  ◌≡◌, refl, String, none, some, [], ◌∷◌, ◌===◌, eq_iff, arith, if◌then◌else◌,
}
use blackcat_darkmesh_gatewa.JsMap.{JsMap, get, set, delete, IsUnique}

module _ {ℓ} {V : Type ℓ} where
  pub get-set :
      (k j : String) (v : V) (m : JsMap V)
      → get j (set k v m) ≡ (if k === j then some v else get j m)
  unfolding get set
  get-set k j v [] = refl
  get-set k j v ((i, w) ∷ m) = ground (arith, eq_iff k j, eq_iff i k, eq_iff i j, get-set k j v m)

  pub get-delete :
      (k j : String) (m : JsMap V) → get j (delete k m) ≡ (if k === j then none else get j m)
  unfolding get delete
  get-delete k j [] = ground arith
  get-delete k j ((i, w) ∷ m) = ground (arith, eq_iff k j, eq_iff i k, eq_iff i j, get-delete k j m)

  pub set-IsUnique : (k : String) (v : V) (m : JsMap V) → IsUnique m → IsUnique (set k v m)
  unfolding set get
  set-IsUnique k v [] u = (refl, tt)
  set-IsUnique k v ((j, w) ∷ m) u =
      ground (arith, set-IsUnique k v m, get-set k j v m, eq_iff k j, eq_iff j k)

  pub delete-IsUnique : (k : String) (m : JsMap V) → IsUnique m → IsUnique (delete k m)
  unfolding delete
  delete-IsUnique k [] u = tt
  delete-IsUnique k ((j, w) ∷ m) u = ground (arith, delete-IsUnique k m, get-delete k j m)
