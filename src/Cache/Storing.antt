-- ===== src/Cache/Storing.antt =====
-- The step of `put` in src/cache.ts that stores an entry and sets its subject.
use blackcat_darkmesh_gatewa.Cache.{Cache, CacheEntry, link, attach_key_to_subject}
use blackcat_darkmesh_gatewa.Cache.Admission.{truthy, keep_subject, set_subject, store_entry}
use blackcat_darkmesh_gatewa.Cache.Linking.{
  get-link_key_subject, get-attach_key_subject, IsFree, HasRoom, link-Agree, attach-Agree,
  store-attach,
}
use blackcat_darkmesh_gatewa.Cache.Coherence.{IsCoherent}
use blackcat_darkmesh_gatewa.Base.{
  ℕ, ◌+◌, ◌<◌, ◌≡◌, refl, inl, inr, String, Bool, true, false, Option, none, some, ◌===◌, eq_iff,
  arith, if◌then◌else◌, Bool-cases,
}
use blackcat_darkmesh_gatewa.JsMap.{get, set, delete, has, size, IsUnique}
use blackcat_darkmesh_gatewa.JsMap.Laws.{get-set, get-delete, set-IsUnique, delete-IsUnique}
use blackcat_darkmesh_gatewa.JsMap.Sizes.{size-set, size-delete}

-- A subject that is given is not the empty text.
abbrev pub IsNamed : Option String → Type 0
IsNamed none = Unit
IsNamed (some s) = (s === "") ≡ false

pub truthy-IsNamed : (o : Option String) → IsNamed (truthy o)
truthy-IsNamed none = tt
truthy-IsNamed (some s) = ground arith

-- The entry is there, before the subject is set.
abbrev with_entry : String → CacheEntry → Cache → Cache
with_entry key entry c = record c { store = set key entry (delete key c.store) }

module _ (most : ℕ) (key : String) (entry : CacheEntry) (c : Cache) where
  with_entry-IsCoherent : IsCoherent most c → IsCoherent most (with_entry key entry c)
  with_entry-IsCoherent h = record {
    agree = record { same = h.agree.same; named = h.agree.named; sets = h.agree.sets };
    unique = set-IsUnique key entry (delete key c.store) (delete-IsUnique key c.store h.unique);
    stored = λ k held. ground (
      arith,
      h.stored k held,
      get-set key k entry (delete key c.store),
      get-delete key k c.store,
    );
  }

  get-with_entry :
      (k : String)
      → get k (with_entry key entry c).store ≡ (if key === k then some entry else get k c.store)
  get-with_entry k =
      ground
        (arith, get-set key k entry (delete key c.store), get-delete key k c.store, eq_iff key k)

  size-with_entry :
      IsUnique c.store
      → size (with_entry key entry c).store
        ≡ (if has key c.store then size c.store else size c.store + 1)
  size-with_entry u = ground (
    arith,
    size-set key entry (delete key c.store),
    size-delete key c.store u,
    get-delete key key c.store,
    eq_iff key key,
  )

module _ (most : ℕ) (key subject : String) (c : Cache) where
  stored_if :
      (c' : Cache)
      → c'.store ≡ c.store
      → ((k : String)
          → get k c'.key_subject ≡ (if key === k then some subject else get k c.key_subject))
      → IsCoherent most c
      → has key c.store ≡ true
      → (k : String) → has k c'.key_subject ≡ true
      → has k c'.store ≡ true
  stored_if c' same linked h here k held = ground (arith, same, linked k, h.stored k, eq_iff key k)

  link-IsCoherent :
      IsCoherent most c
      → (subject === "") ≡ false
      → has key c.store ≡ true
      → IsFree subject (get key c.key_subject)
      → HasRoom most key (get subject c.subjects)
      → IsCoherent most (link key subject c)
  link-IsCoherent h named here free room = record {
    agree = link-Agree key subject most c h.agree named free room;
    unique = unfold link in h.unique;
    stored =
        stored_if (link key subject c) (unfold link in refl)
          (get-link_key_subject key subject most c) h here;
  }

  attach-IsCoherent :
      IsCoherent most c
      → (subject === "") ≡ false
      → 0 < most
      → has key c.store ≡ true
      → HasRoom most key (get subject c.subjects)
      → IsCoherent most (attach_key_to_subject key subject c)
  attach-IsCoherent h named some_room here room =
      let same = store-attach key subject most c in
      record {
        agree = attach-Agree key subject most c h.agree named some_room room;
        unique = rw same h.unique;
        stored =
            stored_if (attach_key_to_subject key subject c) same
              (λ k. get-attach_key_subject key subject most c k h.agree) h here;
      }

-- The subject's set has the key, or room for it.
abbrev pub SubjectRoom : ℕ → String → Option String → Cache → Type 0
SubjectRoom most key none c = Unit
SubjectRoom most key (some subject) c = HasRoom most key (get subject c.subjects)

module _ (most : ℕ) (key : String) (c : Cache) where
  keep_subject-IsCoherent :
      (o : Option String)
      → get key c.key_subject ≡ o
      → has key c.store ≡ true
      → IsCoherent most c
      → IsCoherent most (keep_subject key o c)
  unfolding keep_subject
  keep_subject-IsCoherent none held here h = h
  keep_subject-IsCoherent (some s) held here h = elim (Bool-cases (s === "")) [
    | inl empty ↦ rw (empty, keep_subject) h
    | inr named ↦
        rw (named, keep_subject)
          (link-IsCoherent most key s c h named here (inr held)
            (inl (ground (arith, h.agree.same key s, eq_iff s s))))
  ]

  set_subject-IsCoherent :
      (o : Option String) (existed : Bool)
      → IsNamed o
      → 0 < most
      → has key c.store ≡ true
      → SubjectRoom most key o c
      → IsCoherent most c
      → IsCoherent most (set_subject key o existed c)
  unfolding set_subject
  set_subject-IsCoherent (some s) existed named some_room here room h =
      attach-IsCoherent most key s c h named some_room here room
  set_subject-IsCoherent none true named some_room here room h =
      keep_subject-IsCoherent (get key c.key_subject) refl here h
  set_subject-IsCoherent none false named some_room here room h = h

  store-set_subject :
      (o : Option String) (existed : Bool) → (set_subject key o existed c).store ≡ c.store
  unfolding set_subject keep_subject link
  store-set_subject (some s) existed = store-attach key s most c
  store-set_subject none existed = ground arith

module _ (most : ℕ) (key : String) (entry : CacheEntry) (subject : Option String) (c : Cache) where
  pub store_entry-IsCoherent :
      IsNamed subject
      → 0 < most
      → SubjectRoom most key subject c
      → IsCoherent most c
      → IsCoherent most (store_entry key entry subject c)
  unfolding store_entry
  store_entry-IsCoherent named some_room room h =
      set_subject-IsCoherent most key (with_entry key entry c) subject (has key c.store) named
        some_room (ground (arith, get-with_entry most key entry c key, eq_iff key key))
        (room_with_entry subject room) (with_entry-IsCoherent most key entry c h)
    where
      room_with_entry :
          (o : Option String)
          → SubjectRoom most key o c
          → SubjectRoom most key o (with_entry key entry c)
      room_with_entry none r = tt
      room_with_entry (some s) r = r

  pub store-store_entry :
      (k : String)
      → get k (store_entry key entry subject c).store
        ≡ (if key === k then some entry else get k c.store)
  unfolding store_entry
  store-store_entry k = ground (
    arith,
    store-set_subject most key (with_entry key entry c) subject (has key c.store),
    get-with_entry most key entry c k,
  )

  pub size-store_entry :
      IsUnique c.store
      → size (store_entry key entry subject c).store
        ≡ (if has key c.store then size c.store else size c.store + 1)
  unfolding store_entry
  size-store_entry u = ground (
    arith,
    store-set_subject most key (with_entry key entry c) subject (has key c.store),
    size-with_entry most key entry c u,
  )

module _ (most : ℕ) (key : String) (entry : CacheEntry) (subject : String) (c : Cache) where
  -- The entry is stored under its subject.
  pub key_subject-store_entry :
      IsCoherent most c
      → get key (store_entry key entry (some subject) c).key_subject ≡ some subject
  unfolding store_entry set_subject
  key_subject-store_entry h = ground (
    arith,
    get-attach_key_subject key subject most (with_entry key entry c) key
        (with_entry-IsCoherent most key entry c h).agree,
    eq_iff key key,
  )
