-- ===== src/Cache/Subjects.antt =====
-- The two maps between keys and subjects in src/cache.ts.
use blackcat_darkmesh_gatewa.Cache.{
  Cache, KeySet, detach_from, detach_owned, detach_key_from_subjects,
}
use blackcat_darkmesh_gatewa.Base.{
  ℕ, ◌≤◌, ◌<◌, ◌≡◌, refl, ◌≢◌, inl, inr, String, Bool, false, ◌&&◌, Option, none, some, ◌===◌,
  eq_iff, arith, ◌==◌, if◌then◌else◌, Option-cases,
}
use blackcat_darkmesh_gatewa.JsMap.{JsMap, get, delete, has, size, IsUnique}
use blackcat_darkmesh_gatewa.JsMap.Laws.{get-set, get-delete, delete-IsUnique}
use blackcat_darkmesh_gatewa.JsMap.Sizes.{size-delete-le, get_zero}

-- Does `subjects` list the key under the subject?
abbrev pub lists : String → Option KeySet → Bool
lists key none = false
lists key (some keys) = has key keys

-- Does `keySubject` name the subject for the key?
abbrev pub owns : String → Option String → Bool
owns subject none = false
owns subject (some s) = s === subject

-- `set.size`, with 0 for no set.
abbrev pub set_size : Option KeySet → ℕ
set_size none = 0
set_size (some keys) = size keys

abbrev pub SetIsValid : ℕ → Option KeySet → Type 0
SetIsValid most none = Unit
SetIsValid most (some keys) = IsUnique keys × (0 < size keys) × (size keys ≤ most)

-- The two maps say the same, no subject is empty, and every set is a set, not empty and not too
-- large.
pub record Agree (most : ℕ) (c : Cache) : Type 0 where
  pub same :
      (key subject : String)
      → lists key (get subject c.subjects) ≡ owns subject (get key c.key_subject)
  pub named : (key : String) → get key c.key_subject ≢ some ""
  pub sets : (subject : String) → SetIsValid most (get subject c.subjects)

module _ (key t : String) where
  pub get-detach_from :
      (o : Option KeySet) (subjects : JsMap KeySet) (subject : String)
      → get t subjects ≡ o
      → get subject (detach_from key t o subjects) ≡ (
          if t === subject
          then elim o [
            | none ↦ none
            | some keys ↦ if size (delete key keys) == 0 then none else some (delete key keys)
          ]
          else get subject subjects)
  unfolding detach_from
  get-detach_from none subjects subject e = ground (arith, eq_iff t subject)
  get-detach_from (some keys) subjects subject e = ground (
    arith,
    get-delete t subject subjects,
    get-set t subject (delete key keys) subjects,
    eq_iff t subject,
  )

lists-detach_from :
    (key t k subject : String) (subjects : JsMap KeySet)
    → lists k (get subject (detach_from key t (get t subjects) subjects))
      ≡ (if (t === subject) && (key === k) then false else lists k (get subject subjects))
lists-detach_from key t k subject subjects = elim (Option-cases (get t subjects)) [
  | inl e ↦
      ground (arith, get-detach_from key t (get t subjects) subjects subject refl, eq_iff t subject)
  | inr (keys, e) ↦ ground (
    arith,
    get-detach_from key t (get t subjects) subjects subject refl,
    eq_iff t subject,
    get-delete key k keys,
    get_zero k (delete key keys),
  )
]

sets-detach_from :
    (key t subject : String) (subjects : JsMap KeySet) (most : ℕ)
    → SetIsValid most (get t subjects)
    → SetIsValid most (get subject subjects)
    → SetIsValid most (get subject (detach_from key t (get t subjects) subjects))
sets-detach_from key t subject subjects most vt vs = elim (Option-cases (get t subjects)) [
  | inl e ↦
      ground (arith, get-detach_from key t (get t subjects) subjects subject refl, eq_iff t subject)
  | inr (keys, e) ↦ ground (
    arith,
    get-detach_from key t (get t subjects) subjects subject refl,
    eq_iff t subject,
    delete-IsUnique key keys,
    size-delete-le key keys,
  )
]

module _ (key : String) (most : ℕ) (c : Cache) where
  abbrev detached : Cache
  detached = detach_key_from_subjects key c

  pub store-detach : detached.store ≡ c.store
  unfolding detach_key_from_subjects detach_owned
  store-detach = ground arith

  pub get-detach_key_subject :
      (k : String)
      → Agree most c
      → get k detached.key_subject ≡ (if key === k then none else get k c.key_subject)
  unfolding detach_key_from_subjects detach_owned
  get-detach_key_subject k a = elim (Option-cases (get key c.key_subject)) [
    | inl e ↦ ground (arith, eq_iff key k)
    | inr (t, e) ↦ ground (arith, a.named key, eq_iff t "", get-delete key k c.key_subject)
  ]

  pub lists-detach :
      (k subject : String)
      → Agree most c
      → lists k (get subject detached.subjects)
        ≡ (if key === k then false else lists k (get subject c.subjects))
  unfolding detach_key_from_subjects detach_owned
  lists-detach k subject a = elim (Option-cases (get key c.key_subject)) [
    | inl e ↦ ground (arith, eq_iff key k, a.same key subject)
    | inr (t, e) ↦ ground (
      arith,
      a.named key,
      eq_iff t "",
      eq_iff key k,
      eq_iff t subject,
      a.same key subject,
      lists-detach_from key t k subject c.subjects,
    )
  ]

  sets-detach : (subject : String) → Agree most c → SetIsValid most (get subject detached.subjects)
  unfolding detach_key_from_subjects detach_owned
  sets-detach subject a = elim (Option-cases (get key c.key_subject)) [
    | inl e ↦ ground (arith, a.sets subject)
    | inr (t, e) ↦
        ground (arith, a.sets subject, sets-detach_from key t subject c.subjects most (a.sets t))
  ]

  pub detach-Agree : Agree most c → Agree most detached
  detach-Agree a = record {
    same = λ k subject.
        ground (arith, lists-detach k subject a, get-detach_key_subject k a, a.same k subject);
    named = λ k e. ground (arith, get-detach_key_subject k a, a.named k);
    sets = λ subject. sets-detach subject a;
  }

  -- Detaching shrinks sets only.
  pub set_size-detach-le :
      (subject : String)
      → set_size (get subject detached.subjects) ≤ set_size (get subject c.subjects)
  unfolding detach_key_from_subjects detach_owned
  set_size-detach-le subject = elim (Option-cases (get key c.key_subject)) [
    | inl e ↦ ground arith
    | inr (t, e) ↦ elim (Option-cases (get t c.subjects)) [
      | inl e' ↦ ground (
        arith,
        get-detach_from key t (get t c.subjects) c.subjects subject refl,
        eq_iff t subject,
      )
      | inr (keys, e') ↦ ground (
        arith,
        get-detach_from key t (get t c.subjects) c.subjects subject refl,
        eq_iff t subject,
        size-delete-le key keys,
      )
    ]
  ]
