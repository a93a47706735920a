-- ===== src/Json/Keys.antt =====
-- The order of texts and the sorted entries of an object. Texts compare by code points, which is the order of
-- `Array.prototype.sort` for texts below U+D800.
use Prim.Native.Char.{code}
use text.Mathlib.TextEquality.{codes_equal}
use text.Mathlib.TextPositions.{compare_self}
use blackcat_darkmesh_gatewa.Base.{
  ◌≡◌, refl, sym, ◌≢◌, inl, inr, String, Bool, true, false, List, [], ◌∷◌, arith, ltb, ◌==◌,
  if◌then◌else◌, Bool-cases,
}

-- By code points. `sort` compares UTF-16 units, which is the same order up to U+D7FF.
unfoldable pub before : String → String → Bool
before String.[] String.[] = false
before String.[] (String.◌∷◌ d t) = true
before (String.◌∷◌ c s) String.[] = false
before (String.◌∷◌ c s) (String.◌∷◌ d t) =
    let rest = before s t in if code c == code d then rest else ltb (code c) (code d)

pub before_asym : (s t : String) → before s t ≡ true → before t s ≡ false
unfolding before
before_asym String.[] String.[] h = cc
before_asym String.[] (String.◌∷◌ d t) h = refl
before_asym (String.◌∷◌ c s) String.[] h = cc
before_asym (String.◌∷◌ c s) (String.◌∷◌ d t) h = ground (arith, before_asym s t)

pub before_trans : (s t u : String) → before s t ≡ true → before t u ≡ true → before s u ≡ true
unfolding before
before_trans String.[] String.[] u h k = cc
before_trans String.[] (String.◌∷◌ d t) String.[] h k = cc
before_trans String.[] (String.◌∷◌ d t) (String.◌∷◌ e u) h k = refl
before_trans (String.◌∷◌ c s) String.[] u h k = cc
before_trans (String.◌∷◌ c s) (String.◌∷◌ d t) String.[] h k = cc
before_trans (String.◌∷◌ c s) (String.◌∷◌ d t) (String.◌∷◌ e u) h k =
    ground (arith, before_trans s t u)

pub before_total : (s t : String) → before s t ≡ false → before t s ≡ false → s ≡ t
unfolding before
before_total String.[] String.[] h k = refl
before_total String.[] (String.◌∷◌ d t) h k = cc
before_total (String.◌∷◌ c s) String.[] h k = cc
before_total (String.◌∷◌ c s) (String.◌∷◌ d t) h k =
    let same : code c ≡ code d = ground arith in
    let rest : s ≡ t = before_total s t (ground arith) (ground arith) in
    let heads : c ≡ d = codes_equal c d (rw same (compare_self (code d))) in rw (heads, rest) refl

module _ {ℓ} {A : Type ℓ} where
  -- Where an entry goes among sorted ones: before the first key that is behind its own.
  unfoldable pub insert_entry : String → A → List (String × A) → List (String × A)
  unfolding before
  insert_entry k a [] = (k, a) ∷ []
  insert_entry k a ((j, b) ∷ entries) =
      if before k j then (k, a) ∷ (j, b) ∷ entries else (j, b) ∷ insert_entry k a entries

  -- `Object.keys(value).sort()` with the entries' values.
  unfoldable pub sort_entries : List (String × A) → List (String × A)
  unfolding insert_entry
  sort_entries [] = []
  sort_entries ((k, a) ∷ entries) = insert_entry k a (sort_entries entries)

  module _ (k j : String) (a b : A) (entries : List (String × A)) where
    insert_before :
        before k j ≡ true → insert_entry k a ((j, b) ∷ entries) ≡ (k, a) ∷ (j, b) ∷ entries
    unfolding insert_entry
    insert_before h = rw h refl

    insert_behind :
        before k j ≡ false → insert_entry k a ((j, b) ∷ entries) ≡ (j, b) ∷ insert_entry k a entries
    unfolding insert_entry
    insert_behind h = rw h refl

  insert_nil : (k : String) (a : A) → insert_entry k a [] ≡ (k, a) ∷ []
  unfolding insert_entry
  insert_nil k a = refl

  insert_ordered :
      (k j : String) (a b : A) (entries : List (String × A))
      → before k j ≡ true
      → insert_entry k a (insert_entry j b entries) ≡ insert_entry j b (insert_entry k a entries)
  insert_ordered k j a b [] h =
      rw
        (
          insert_nil j b,
          insert_nil k a,
          insert_before k j a b [] h,
          insert_behind j k b a [] (before_asym k j h),
          insert_nil j b,
        )
        refl
  insert_ordered k j a b ((i, c) ∷ entries) h = elim (Bool-cases (before j i)) [
    | inl ji ↦
        rw
          (
            insert_before j i b c entries ji,
            insert_before k i a c entries (before_trans k j i h ji),
            insert_before k j a b ((i, c) ∷ entries) h,
            insert_behind j k b a ((i, c) ∷ entries) (before_asym k j h),
            insert_before j i b c entries ji,
          )
          refl
    | inr ji ↦ elim (Bool-cases (before k i)) [
      | inl ki ↦
          rw
            (
              insert_behind j i b c entries ji,
              insert_before k i a c entries ki,
              insert_before k i a c (insert_entry j b entries) ki,
              insert_behind j k b a ((i, c) ∷ entries) (before_asym k j h),
              insert_behind j i b c entries ji,
            )
            refl
      | inr ki ↦
          rw
            (
              insert_behind j i b c entries ji,
              insert_behind k i a c entries ki,
              insert_behind k i a c (insert_entry j b entries) ki,
              insert_behind j i b c (insert_entry k a entries) ji,
              insert_ordered k j a b entries h,
            )
            refl
    ]
  ]

  -- Entries of different keys may be inserted in any order.
  pub insert_entry_comm :
      (k j : String) (a b : A) (entries : List (String × A))
      → k ≢ j
      → insert_entry k a (insert_entry j b entries) ≡ insert_entry j b (insert_entry k a entries)
  insert_entry_comm k j a b entries ne = elim (Bool-cases (before k j)) [
    | inl h ↦ insert_ordered k j a b entries h
    | inr h ↦ elim (Bool-cases (before j k)) [
      | inl h' ↦ sym (insert_ordered j k b a entries h')
      | inr h' ↦ absurd (ne (before_total k j h h'))
    ]
  ]
