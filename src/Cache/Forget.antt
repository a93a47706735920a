-- ===== src/Cache/Forget.antt =====
-- `forgetSubject` of src/cache.ts: the wipe of everything stored for a subject.
use blackcat_darkmesh_gatewa.Cache.{Cache, CacheEntry, KeySet, forget_keys, forget_subject}
use blackcat_darkmesh_gatewa.Cache.Subjects.{lists, owns, set_size}
use blackcat_darkmesh_gatewa.Cache.Coherence.{IsCoherent}
use blackcat_darkmesh_gatewa.Base.{
  ℕ, ◌+◌, ◌≤◌, ◌<◌, ◌≡◌, refl, inl, inr, String, true, false, ◌&&◌, none, some, [], ◌∷◌, ◌===◌,
  eq_iff, arith, if◌then◌else◌, Option-cases,
}
use blackcat_darkmesh_gatewa.JsMap.{JsMap, get, delete, has, size, IsUnique}
use blackcat_darkmesh_gatewa.JsMap.Laws.{get-delete, delete-IsUnique}
use blackcat_darkmesh_gatewa.JsMap.Sizes.{size-delete}

get-forget_keys_store :
    (j : String) (keys : KeySet) (c : Cache) (n : ℕ)
    → get j (forget_keys keys c n).0.store ≡ (if has j keys then none else get j c.store)
unfolding forget_keys get
get-forget_keys_store j [] c n = refl
get-forget_keys_store j ((k, _) ∷ keys) c n = ground (
  arith,
  get-forget_keys_store j keys c n,
  get-forget_keys_store j keys
      (record c { store = delete k c.store; key_subject = delete k c.key_subject }) (n + 1),
  get-delete k j c.store,
  eq_iff k j,
)

get-forget_keys_key_subject :
    (j : String) (keys : KeySet) (c : Cache) (n : ℕ)
    → IsUnique keys
    → get j (forget_keys keys c n).0.key_subject
      ≡ (if has j keys && has j c.store then none else get j c.key_subject)
unfolding forget_keys get
get-forget_keys_key_subject j [] c n u = refl
get-forget_keys_key_subject j ((k, _) ∷ keys) c n u = ground (
  arith,
  get-forget_keys_key_subject j keys c n,
  get-forget_keys_key_subject j keys
      (record c { store = delete k c.store; key_subject = delete k c.key_subject }) (n + 1),
  get-delete k j c.store,
  get-delete k j c.key_subject,
  eq_iff k j,
)

subjects-forget_keys :
    (keys : KeySet) (c : Cache) (n : ℕ) → (forget_keys keys c n).0.subjects ≡ c.subjects
unfolding forget_keys
subjects-forget_keys [] c n = refl
subjects-forget_keys ((k, _) ∷ keys) c n = ground (
  arith,
  subjects-forget_keys keys c n,
  subjects-forget_keys keys
      (record c { store = delete k c.store; key_subject = delete k c.key_subject }) (n + 1),
)

IsUnique-forget_keys :
    (keys : KeySet) (c : Cache) (n : ℕ) → IsUnique c.store → IsUnique (forget_keys keys c n).0.store
unfolding forget_keys
IsUnique-forget_keys [] c n u = u
IsUnique-forget_keys ((k, _) ∷ keys) c n u = ground (
  arith,
  IsUnique-forget_keys keys c n,
  IsUnique-forget_keys keys
      (record c { store = delete k c.store; key_subject = delete k c.key_subject }) (n + 1),
  delete-IsUnique k c.store,
)

-- The keys are all stored.
abbrev Stored : KeySet → JsMap CacheEntry → Type 0
Stored [] m = Unit
Stored ((k, _) ∷ keys) m = (has k m ≡ true) × Stored keys m

Stored-delete :
    (k : String) (keys : KeySet) (m : JsMap CacheEntry)
    → has k keys ≡ false
    → Stored keys m
    → Stored keys (delete k m)
unfolding get
Stored-delete k [] m h w = tt
Stored-delete k ((j, _) ∷ keys) m h w =
    ground (arith, Stored-delete k keys m, get-delete k j m, eq_iff j k, eq_iff k j)

-- The count that the loop returns is the number of entries that it took out.
size-forget_keys :
    (keys : KeySet) (c : Cache) (n : ℕ)
    → IsUnique keys
    → IsUnique c.store
    → Stored keys c.store
    → ((forget_keys keys c n).1 ≡ n + size keys)
      × (size (forget_keys keys c n).0.store + size keys ≡ size c.store)
unfolding forget_keys
size-forget_keys [] c n uk u w = (omega arith, omega arith)
size-forget_keys ((k, _) ∷ keys) c n uk u w = ground (
  arith,
  size-forget_keys keys
      (record c { store = delete k c.store; key_subject = delete k c.key_subject }) (n + 1),
  delete-IsUnique k c.store,
  size-delete k c.store,
  Stored-delete k keys c.store,
)

module _ (most : ℕ) (c : Cache) (h : IsCoherent most c) (subject : String) (keys : KeySet)
    (held : get subject c.subjects ≡ some keys) where
  owner_of_key : (k : String) → has k keys ≡ owns subject (get k c.key_subject)
  owner_of_key k = ground (arith, h.agree.same k subject)

  stored_key : (k : String) → has k keys ≡ true → has k c.store ≡ true
  stored_key k here = h.stored k (ground (arith, owner_of_key k))

  Stored-keys :
      (ks : KeySet)
      → ((k : String) → has k ks ≡ true → has k keys ≡ true)
      → IsUnique ks
      → Stored ks c.store
  unfolding get
  Stored-keys [] sub u = tt
  Stored-keys ((k, _) ∷ ks) sub u = (
    stored_key k (sub k (ground (arith, eq_iff k k))),
    Stored-keys ks (λ j e. sub j (ground (arith, eq_iff k j))) u.1,
  )

  abbrev forgotten : Cache
  forgotten = (forget_subject subject c).0

  get-forgotten :
      (j : String)
      → (get j forgotten.store ≡ (if has j keys then none else get j c.store))
        × (get j forgotten.key_subject ≡ (if has j keys then none else get j c.key_subject))
  unfolding forget_subject
  get-forgotten j = ground (
    arith,
    get-forget_keys_store j keys c 0,
    get-forget_keys_key_subject j keys c 0 (ground (arith, h.agree.sets subject)),
    stored_key j,
  )

  get-forgotten_subjects :
      (s : String) → get s forgotten.subjects ≡ (if subject === s then none else get s c.subjects)
  unfolding forget_subject
  get-forgotten_subjects s =
      ground (arith, subjects-forget_keys keys c 0, get-delete subject s c.subjects)

  forgotten_same :
      (k s : String) → lists k (get s forgotten.subjects) ≡ owns s (get k forgotten.key_subject)
  forgotten_same k s = elim (Option-cases (get k c.key_subject)) [
    | inl e ↦
        ground (arith, get-forgotten k, get-forgotten_subjects s, h.agree.same k s, owner_of_key k)
    | inr (t, e) ↦ ground (
      arith,
      get-forgotten k,
      get-forgotten_subjects s,
      h.agree.same k s,
      owner_of_key k,
      eq_iff subject s,
      eq_iff t s,
      eq_iff t subject,
    )
  ]

  forgotten-IsUnique : IsUnique forgotten.store
  unfolding forget_subject
  forgotten-IsUnique = ground (arith, IsUnique-forget_keys keys c 0, h.unique)

  forgotten-IsCoherent : IsCoherent most forgotten
  forgotten-IsCoherent = record {
    agree = record {
      same = forgotten_same;
      named = λ k e. ground (arith, get-forgotten k, h.agree.named k);
      sets = λ s. ground (arith, get-forgotten_subjects s, h.agree.sets s);
    };
    unique = forgotten-IsUnique;
    stored = λ k e. ground (arith, get-forgotten k, h.stored k);
  }

  forgotten_count :
      ((forget_subject subject c).1 ≡ size keys) × (size forgotten.store + size keys ≡ size c.store)
  unfolding forget_subject
  forgotten_count =
      let valid : IsUnique keys × (0 < size keys) × (size keys ≤ most) =
        ground (arith, h.agree.sets subject) in
      ground
        (arith, size-forget_keys keys c 0 valid.0 h.unique (Stored-keys keys (λ k e. e) valid.0))

module _ (most : ℕ) (c : Cache) (subject : String) where
  forget_nothing : get subject c.subjects ≡ none → forget_subject subject c ≡ (c, 0)
  unfolding forget_subject
  forget_nothing e = ground arith

  -- `forgetSubject` keeps the cache coherent.
  pub forget_subject-IsCoherent : IsCoherent most c → IsCoherent most (forget_subject subject c).0
  forget_subject-IsCoherent h = elim (Option-cases (get subject c.subjects)) [
    | inl e ↦ rw (forget_nothing e) h
    | inr (keys, held) ↦ forgotten-IsCoherent most c h subject keys held
  ]

  -- In a coherent cache `forgetSubject` removes every entry whose key belongs to the subject and
  -- no other entry. It returns the number of the subject's keys, which is the number of entries
  -- that are gone.
  pub forget_subject_wipes :
      (key : String)
      → IsCoherent most c
      → (get key (forget_subject subject c).0.store
          ≡ (if owns subject (get key c.key_subject) then none else get key c.store))
        × ((forget_subject subject c).1 ≡ set_size (get subject c.subjects))
        × (size (forget_subject subject c).0.store + (forget_subject subject c).1 ≡ size c.store)
  forget_subject_wipes key h = elim (Option-cases (get subject c.subjects)) [
    | inl e ↦ ground (arith, forget_nothing e, h.agree.same key subject)
    | inr (keys, held) ↦ ground (
      arith,
      get-forgotten most c h subject keys held key,
      forgotten_count most c h subject keys held,
      owner_of_key most c h subject keys held key,
    )
  ]
