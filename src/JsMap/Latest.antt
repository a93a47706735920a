-- ===== src/JsMap/Latest.antt =====
-- Loops that find nothing to remove, and the entry that was added last, which is removed last.
use blackcat_darkmesh_gatewa.Base.{
  ℕ, zero, suc, ◌+◌, ◌≤◌, ◌<◌, ◌≡◌, refl, inl, inr, String, Bool, true, false, some, [], ◌∷◌, ◌===◌,
  eq_iff, arith, ltb, Bool-cases,
}
use blackcat_darkmesh_gatewa.JsMap.{
  JsMap, get, set, has, size, delete_where, delete_oldest_while, IsUnique,
}
use blackcat_darkmesh_gatewa.JsMap.Laws.{get-set}
use blackcat_darkmesh_gatewa.JsMap.Sizes.{size-set}
use blackcat_darkmesh_gatewa.JsMap.Sweeps.{passes, delete_oldest_while_idle, delete_first}

module _ {ℓ} {V : Type ℓ} (test : V → Bool) where
  -- No entry passes the test.
  abbrev pub Fresh : JsMap V → Type 0
  Fresh [] = Unit
  Fresh ((k, v) ∷ m) = (test v ≡ false) × Fresh m

  pub delete_where_idle : (es m : JsMap V) (n : ℕ) → Fresh es → delete_where test es m n ≡ (m, n)
  unfolding delete_where
  delete_where_idle [] m n f = refl
  delete_where_idle ((k, v) ∷ es) m n f = ground (arith, delete_where_idle es m n)

  pub Fresh-get :
      (m : JsMap V) → IsUnique m → ((j : String) → passes test (get j m) ≡ false) → Fresh m
  unfolding get
  Fresh-get [] u h = tt
  Fresh-get ((k, v) ∷ m) u h =
      (ground (arith, h k, eq_iff k k), Fresh-get m u.1 (λ j. ground (arith, h j, eq_iff k j)))

  pub Fresh-set : (k : String) (v : V) (m : JsMap V) → test v ≡ false → Fresh m → Fresh (set k v m)
  unfolding set
  Fresh-set k v [] t f = (t, tt)
  Fresh-set k v ((j, w) ∷ m) t f = ground (arith, Fresh-set k v m)

module _ {ℓ} {V : Type ℓ} (cap : ℕ) where
  set_tail :
      (k j : String) (v w : V) (m : JsMap V)
      → (j === k) ≡ false
      → set k v ((j, w) ∷ m) ≡ (j, w) ∷ set k v m
  unfolding set
  set_tail k j v w m e = rw e

  absent_if_over :
      (k j : String) (v w : V) (m : JsMap V)
      → size ((j, w) ∷ m) ≤ cap
      → ltb cap (size (set k v ((j, w) ∷ m))) ≡ true
      → ((j === k) ≡ false) × (has k m ≡ false)
  unfolding get
  absent_if_over k j v w m fits over = ground (arith, size-set k v ((j, w) ∷ m))

  one_round :
      (k j : String) (v w : V) (m : JsMap V) (fuel n : ℕ)
      → has j m ≡ false
      → (j === k) ≡ false
      → ltb cap (size ((j, w) ∷ set k v m)) ≡ true
      → delete_oldest_while (ltb cap) (suc fuel) ((j, w) ∷ set k v m) n
        ≡ delete_oldest_while (ltb cap) fuel (set k v m) (n + 1)
  unfolding delete_oldest_while
  one_round k j v w m fuel n lone other over =
      rw over (
        rw (delete_first j w (set k v m) (ground (arith, get-set k j v m, eq_iff k j, eq_iff j k))))

  -- Too many entries by one: the oldest goes, and the one that was just added stays.
  pub get-delete_oldest_while-set :
      (k : String) (v : V) (m : JsMap V) (fuel n : ℕ)
      → IsUnique m
      → 0 < cap
      → size m ≤ cap
      → get k (delete_oldest_while (ltb cap) fuel (set k v m) n).0 ≡ some v
  get-delete_oldest_while-set k v m zero n u positive fits =
      unfold delete_oldest_while in ground (arith, get-set k k v m, eq_iff k k)
  get-delete_oldest_while-set k v [] (suc fuel) n u positive fits =
      unfold delete_oldest_while set get in ground (arith, eq_iff k k)
  get-delete_oldest_while-set k v ((j, w) ∷ m) (suc fuel) n u positive fits =
      elim (Bool-cases (ltb cap (size (set k v ((j, w) ∷ m))))) [
        | inl over ↦
            let (other, absent) = absent_if_over k j v w m fits over in
            let longer = size-set k v m in
            rw (set_tail k j v w m other) (
              rw (one_round k j v w m fuel n u.0 other (rw (set_tail k j v w m other) at over)) (
                rw (delete_oldest_while_idle (ltb cap) fuel (set k v m) (n + 1) (ground arith))
                  (ground (arith, get-set k k v m, eq_iff k k))))
        | inr fine ↦
            rw (delete_oldest_while_idle (ltb cap) (suc fuel) (set k v ((j, w) ∷ m)) n fine)
              (ground (arith, get-set k k v ((j, w) ∷ m), eq_iff k k))
      ]
