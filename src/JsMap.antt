-- ===== src/JsMap.antt =====
-- The `Map` of the language, as an association list in insertion order. `set` on a key that is
-- there writes in place, and `keys().next()` is the head.
pub mod Laws
pub mod Sizes
pub mod Sweeps
pub mod Latest
use blackcat_darkmesh_gatewa.Base.{
  ℕ, zero, suc, ◌+◌, ◌≡◌, String, Bool, true, false, Option, none, some, List, [], ◌∷◌, ◌===◌,
  length, is_some, if◌then◌else◌,
}

abbrev pub JsMap {ℓ} : Type ℓ → Type ℓ
JsMap V = List (String × V)

module _ {ℓ} {V : Type ℓ} where
  unfoldable pub get : String → JsMap V → Option V
  get k [] = none
  get k ((j, v) ∷ m) = if j === k then some v else get k m

  unfoldable pub set : String → V → JsMap V → JsMap V
  set k v [] = (k, v) ∷ []
  set k v ((j, w) ∷ m) = if j === k then (j, v) ∷ m else (j, w) ∷ set k v m

  unfoldable pub delete : String → JsMap V → JsMap V
  delete k [] = []
  delete k ((j, v) ∷ m) = let rest = delete k m in if j === k then rest else (j, v) ∷ rest

  abbrev pub has : String → JsMap V → Bool
  has k m = is_some (get k m)

  abbrev pub size : JsMap V → ℕ
  size m = length m

  -- `map.keys().next().value`
  abbrev pub first_key : JsMap V → Option String
  first_key [] = none
  first_key ((k, v) ∷ m) = some k

  -- `for (const [k, v] of map.entries()) if (test(v)) { map.delete(k); removed++ }`
  unfoldable pub delete_where : (V → Bool) → JsMap V → JsMap V → ℕ → JsMap V × ℕ
  delete_where test [] m removed = (m, removed)
  delete_where test ((k, v) ∷ entries) m removed =
      delete_where test entries (if test v then delete k m else m)
        (if test v then removed + 1 else removed)

  -- `while (full(map.size)) { delete the first key; removed++ }`, which ends on an empty map.
  unfoldable pub delete_oldest_while : (ℕ → Bool) → ℕ → JsMap V → ℕ → JsMap V × ℕ
  delete_oldest_while full zero m removed = (m, removed)
  delete_oldest_while full (suc fuel) m removed = elim (first_key m) [
    | none ↦ (m, removed)
    | some oldest ↦
        let rest = delete_oldest_while full fuel (delete oldest m) (removed + 1) in
        if full (size m) then rest else (m, removed)
  ]

  -- No key stands twice.
  abbrev pub IsUnique : JsMap V → Type 0
  IsUnique [] = Unit
  IsUnique ((k, v) ∷ m) = (has k m ≡ false) × IsUnique m
