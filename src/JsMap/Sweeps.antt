-- ===== src/JsMap/Sweeps.antt =====
-- The two loops that remove entries: all that fail a test, and the oldest while there are too many.
use blackcat_darkmesh_gatewa.Base.{
  ℕ, zero, suc, ◌+◌, ◌≤◌, ◌≡◌, refl, ◌⊎◌, inr, String, Bool, true, false, Option, none, some, [],
  ◌∷◌, eq_iff, arith, if◌then◌else◌,
}
use blackcat_darkmesh_gatewa.JsMap.{
  JsMap, get, delete, has, IsUnique, size, delete_where, delete_oldest_while,
}
use blackcat_darkmesh_gatewa.JsMap.Laws.{get-delete, delete-IsUnique}
use blackcat_darkmesh_gatewa.JsMap.Sizes.{size-delete, size-delete-le, delete_absent}

module _ {ℓ} {V : Type ℓ} (test : V → Bool) where
  abbrev pub passes : Option V → Bool
  passes none = false
  passes (some v) = test v

  get-delete_where_from :
      (j : String) (entries m : JsMap V) (n : ℕ)
      → IsUnique entries
      → get j (delete_where test entries m n).0 ≡ (if passes (get j entries) then none else get j m)
  unfolding delete_where get
  get-delete_where_from j [] m n u = refl
  get-delete_where_from j ((k, v) ∷ es) m n u = ground (
    arith,
    get-delete_where_from j es (if test v then delete k m else m) (if test v then n + 1 else n),
    get-delete k j m,
    eq_iff k j,
  )

  -- A sweep keeps exactly the entries that fail the test.
  pub get-delete_where :
      (j : String) (m : JsMap V) (n : ℕ)
      → IsUnique m
      → get j (delete_where test m m n).0 ≡ (if passes (get j m) then none else get j m)
  get-delete_where j m n u = get-delete_where_from j m m n u

  pub delete_where-IsUnique :
      (entries m : JsMap V) (n : ℕ) → IsUnique m → IsUnique (delete_where test entries m n).0
  unfolding delete_where
  delete_where-IsUnique [] m n u = u
  delete_where-IsUnique ((k, v) ∷ es) m n u = ground (
    arith,
    delete_where-IsUnique es (if test v then delete k m else m) (if test v then n + 1 else n),
    delete-IsUnique k m,
  )

  pub size-delete_where-le :
      (entries m : JsMap V) (n : ℕ) → size (delete_where test entries m n).0 ≤ size m
  unfolding delete_where
  size-delete_where-le [] m n = omega arith
  size-delete_where-le ((k, v) ∷ es) m n = ground (
    arith,
    size-delete_where-le es (if test v then delete k m else m) (if test v then n + 1 else n),
    size-delete-le k m,
  )

module _ {ℓ} {V : Type ℓ} where
  -- Every key of the first map is a key of the second.
  abbrev pub Within : JsMap V → JsMap V → Type 0
  Within [] m = Unit
  Within ((k, v) ∷ es) m = (has k m ≡ true) × Within es m

  Within-delete :
      (k : String) (es m : JsMap V) → has k es ≡ false → Within es m → Within es (delete k m)
  unfolding get
  Within-delete k [] m h w = tt
  Within-delete k ((j, v) ∷ es) m h w =
      ground (arith, Within-delete k es m, get-delete k j m, eq_iff j k, eq_iff k j)

  Within-cons : (k : String) (v : V) (es m : JsMap V) → Within es m → Within es ((k, v) ∷ m)
  unfolding get
  Within-cons k v [] m w = tt
  Within-cons k v ((j, x) ∷ es) m w = ground (arith, Within-cons k v es m)

  pub Within-self : (m : JsMap V) → Within m m
  unfolding get
  Within-self [] = tt
  Within-self ((k, v) ∷ m) = ground (arith, Within-self m, Within-cons k v m m, eq_iff k k)

module _ {ℓ} {V : Type ℓ} (test : V → Bool) where
  -- The count that a sweep returns is the number of entries that it took out.
  pub size-delete_where :
      (es m : JsMap V) (n : ℕ)
      → IsUnique es
      → IsUnique m
      → Within es m
      → let r = delete_where test es m n in size r.0 + r.1 ≡ size m + n
  unfolding delete_where
  size-delete_where [] m n ue um w = refl
  size-delete_where ((k, v) ∷ es) m n ue um w = ground (
    arith,
    size-delete_where es (if test v then delete k m else m) (if test v then n + 1 else n),
    delete-IsUnique k m,
    size-delete k m,
    Within-delete k es m,
  )

module _ {ℓ} {V : Type ℓ} where
  pub delete_first :
      (k : String) (v : V) (m : JsMap V) → has k m ≡ false → delete k ((k, v) ∷ m) ≡ m
  unfolding delete get
  delete_first k v m h = ground (arith, eq_iff k k, delete_absent k m)

module _ {ℓ} {V : Type ℓ} (full : ℕ → Bool) where
  -- With fuel for every entry the loop ends by its own test, or on an empty map.
  pub delete_oldest_while_stops :
      (fuel : ℕ) (m : JsMap V) (n : ℕ)
      → IsUnique m
      → size m ≤ fuel
      → let r = delete_oldest_while full fuel m n in (full (size r.0) ≡ false) ⊎ (size r.0 ≡ 0)
  unfolding delete_oldest_while
  delete_oldest_while_stops zero [] n u h = inr refl
  delete_oldest_while_stops (suc fuel) [] n u h = inr refl
  delete_oldest_while_stops zero ((k, v) ∷ m) n u h = absurd (omega arith)
  delete_oldest_while_stops (suc fuel) ((k, v) ∷ m) n u h =
      ground (arith, delete_first k v m, delete_oldest_while_stops fuel m (n + 1))

  pub delete_oldest_while-IsUnique :
      (fuel : ℕ) (m : JsMap V) (n : ℕ) → IsUnique m → IsUnique (delete_oldest_while full fuel m n).0
  unfolding delete_oldest_while
  delete_oldest_while-IsUnique zero m n u = u
  delete_oldest_while-IsUnique (suc fuel) [] n u = u
  delete_oldest_while-IsUnique (suc fuel) ((k, v) ∷ m) n u =
      ground (arith, delete_first k v m, delete_oldest_while-IsUnique fuel m (n + 1))

  pub size-delete_oldest_while :
      (fuel : ℕ) (m : JsMap V) (n : ℕ)
      → IsUnique m
      → let r = delete_oldest_while full fuel m n in size r.0 + r.1 ≡ size m + n
  unfolding delete_oldest_while
  size-delete_oldest_while zero m n u = refl
  size-delete_oldest_while (suc fuel) [] n u = refl
  size-delete_oldest_while (suc fuel) ((k, v) ∷ m) n u =
      ground (arith, delete_first k v m, size-delete_oldest_while fuel m (n + 1))

  -- What the loop leaves is as it was.
  pub get-delete_oldest_while :
      (j : String) (fuel : ℕ) (m : JsMap V) (n : ℕ)
      → IsUnique m
      → let r = delete_oldest_while full fuel m n in (get j r.0 ≡ none) ⊎ (get j r.0 ≡ get j m)
  unfolding delete_oldest_while get
  get-delete_oldest_while j zero m n u = inr refl
  get-delete_oldest_while j (suc fuel) [] n u = inr refl
  get-delete_oldest_while j (suc fuel) ((k, v) ∷ m) n u =
      ground (arith, delete_first k v m, get-delete_oldest_while j fuel m (n + 1), eq_iff k j)

  pub delete_oldest_while_idle :
      (fuel : ℕ) (m : JsMap V) (n : ℕ)
      → full (size m) ≡ false
      → delete_oldest_while full fuel m n ≡ (m, n)
  unfolding delete_oldest_while
  delete_oldest_while_idle zero m n h = refl
  delete_oldest_while_idle (suc fuel) [] n h = refl
  delete_oldest_while_idle (suc fuel) ((k, v) ∷ m) n h = rw h

  pub size-delete_oldest_while-le :
      (fuel : ℕ) (m : JsMap V) (n : ℕ) → size (delete_oldest_while full fuel m n).0 ≤ size m
  unfolding delete_oldest_while
  size-delete_oldest_while-le zero m n = omega arith
  size-delete_oldest_while-le (suc fuel) [] n = omega arith
  size-delete_oldest_while-le (suc fuel) ((k, v) ∷ m) n = ground (
    arith,
    size-delete_oldest_while-le fuel (delete k ((k, v) ∷ m)) (n + 1),
    size-delete-le k ((k, v) ∷ m),
  )
