-- ===== src/Cache/Linking.antt =====
-- Giving a key its subject in src/cache.ts, and the two maps between them.
use blackcat_darkmesh_gatewa.Cache.Subjects.{
  get-detach_from, lists, set_size, SetIsValid, Agree, detach-Agree, store-detach,
  get-detach_key_subject, set_size-detach-le,
}
use blackcat_darkmesh_gatewa.Cache.{
  Cache, KeySet, detach_owned, detach_key_from_subjects, link, attach_key_to_subject,
}
use blackcat_darkmesh_gatewa.Base.{
  ℕ, ◌<◌, ◌≡◌, refl, ◌⊎◌, inl, inr, String, true, false, ◌&&◌, Option, none, some, [], ◌===◌,
  eq_iff, arith, if◌then◌else◌, or_else, Option-cases,
}
use blackcat_darkmesh_gatewa.JsMap.{get, set}
use blackcat_darkmesh_gatewa.JsMap.Laws.{get-set, set-IsUnique}
use blackcat_darkmesh_gatewa.JsMap.Sizes.{size-set, size-delete}

-- The key has no subject, or it has this one.
abbrev pub IsFree : String → Option String → Type 0
IsFree subject o = (o ≡ none) ⊎ (o ≡ some subject)

-- The set has the key, or room for it.
abbrev pub HasRoom : ℕ → String → Option KeySet → Type 0
HasRoom most key o = (lists key o ≡ true) ⊎ (set_size o < most)

module _ (key subject : String) (most : ℕ) (c : Cache) where
  abbrev linked : Cache
  linked = link key subject c

  lists-link :
      (k s : String)
      → lists k (get s linked.subjects)
        ≡ (if (key === k) && (subject === s) then true else lists k (get s c.subjects))
  unfolding link get
  lists-link k s = ground (
    arith,
    get-set subject s (set key tt (or_else (get subject c.subjects) [])) c.subjects,
    get-set key k tt (or_else (get subject c.subjects) []),
    eq_iff subject s,
    eq_iff key k,
  )

  pub get-link_key_subject :
      (k : String)
      → get k linked.key_subject ≡ (if key === k then some subject else get k c.key_subject)
  unfolding link
  get-link_key_subject k = get-set key k subject c.key_subject

  sets-link :
      (s : String)
      → Agree most c
      → HasRoom most key (get subject c.subjects)
      → SetIsValid most (get s linked.subjects)
  unfolding link set get
  sets-link s a room = elim (Option-cases (get subject c.subjects)) [
    | inl e ↦ ground (
      arith,
      get-set subject s (set key tt (or_else (get subject c.subjects) [])) c.subjects,
      a.sets s,
    )
    | inr (keys, e) ↦ ground (
      arith,
      get-set subject s (set key tt keys) c.subjects,
      set-IsUnique key tt keys,
      size-set key tt keys,
      a.sets s,
      a.sets subject,
    )
  ]

  pub link-Agree :
      Agree most c
      → (subject === "") ≡ false
      → IsFree subject (get key c.key_subject)
      → HasRoom most key (get subject c.subjects)
      → Agree most linked
  link-Agree a named free room = record {
    same = λ k s.
        ground (
          arith,
          lists-link k s,
          get-link_key_subject k,
          a.same k s,
          eq_iff key k,
          eq_iff subject s,
        );
    named = λ k e. ground (arith, get-link_key_subject k, a.named k, eq_iff subject "");
    sets = λ s. sets-link s a room;
  }

module _ (key subject : String) (most : ℕ) (c : Cache) where
  pub store-attach : (attach_key_to_subject key subject c).store ≡ c.store
  unfolding attach_key_to_subject link
  store-attach = store-detach key most c

  pub get-attach_key_subject :
      (k : String)
      → Agree most c
      → get k (attach_key_to_subject key subject c).key_subject
        ≡ (if key === k then some subject else get k c.key_subject)
  unfolding attach_key_to_subject
  get-attach_key_subject k a = ground (
    arith,
    get-link_key_subject key subject most (detach_key_from_subjects key c) k,
    get-detach_key_subject key most c k a,
  )

  -- A key that leaves a set makes room in it.
  set_size-detach_self :
      Agree most c
      → lists key (get subject c.subjects) ≡ true
      → 0 < most
      → set_size (get subject (detach_key_from_subjects key c).subjects) < most
  unfolding detach_key_from_subjects detach_owned
  set_size-detach_self a listed some_room = elim (Option-cases (get key c.key_subject)) [
    | inl e ↦ ground (arith, a.same key subject)
    | inr (t, e) ↦ elim (Option-cases (get subject c.subjects)) [
      | inl e' ↦ ground arith
      | inr (keys, e') ↦ ground (
        arith,
        a.same key subject,
        a.named key,
        a.sets subject,
        eq_iff t subject,
        eq_iff subject "",
        eq_iff t "",
        get-detach_from key t (get t c.subjects) c.subjects subject refl,
        size-delete key keys,
      )
    ]
  ]

  pub attach-Agree :
      Agree most c
      → (subject === "") ≡ false
      → 0 < most
      → (lists key (get subject c.subjects) ≡ true) ⊎ (set_size (get subject c.subjects) < most)
      → Agree most (attach_key_to_subject key subject c)
  unfolding attach_key_to_subject
  attach-Agree a named some_room room =
      link-Agree key subject most (detach_key_from_subjects key c) (detach-Agree key most c a) named
        (inl (ground (arith, get-detach_key_subject key most c key a, eq_iff key key)))
        (elim room [
          | inl listed ↦ inr (set_size-detach_self a listed some_room)
          | inr below ↦ inr (omega (arith, set_size-detach-le key most c subject))
        ])
