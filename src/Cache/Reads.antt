-- ===== src/Cache/Reads.antt =====
-- `sweep`, `fetchEntry`, `get` and `dropKey` of src/cache.ts.
use blackcat_darkmesh_gatewa.Metrics.{Metrics}
use blackcat_darkmesh_gatewa.Cache.{
  Cache, CacheEntry, CacheFetchResult, CacheIntegrityMeta, ArrayBuffer, hit, miss, expired,
  unverified, fetch_found, sweep, sweep_entries, fetch_entry, drop_key, is_verified,
}
use blackcat_darkmesh_gatewa.Cache.Coherence.{
  IsCoherent, store-remove_key, remove_key-IsCoherent, touch_key-IsCoherent, get-touch_key,
  size-touch_key, is_expired, sweep_entries-IsCoherent, get-sweep_entries, size-sweep_entries-le,
}
use blackcat_darkmesh_gatewa.Base.{
  ℕ, ◌≤◌, ◌≡◌, inl, inr, String, Bool, true, false, ◌&&◌, not, Option, none, some, ◌===◌, eq_iff,
  arith, ltb, if◌then◌else◌, Bool-cases, Option-cases,
}
use blackcat_darkmesh_gatewa.JsMap.{get, has, size, IsUnique}
use blackcat_darkmesh_gatewa.JsMap.Laws.{get-delete}
use blackcat_darkmesh_gatewa.JsMap.Sizes.{size-delete-le}

-- The metrics have no part in it.
pub metrics-IsCoherent :
    {most : ℕ} {c : Cache} (m : Metrics)
    → IsCoherent most c
    → IsCoherent most (record c { metrics = m })
metrics-IsCoherent m h = record {
  agree = record { same = h.agree.same; named = h.agree.named; sets = h.agree.sets };
  unique = h.unique;
  stored = h.stored;
}

module _ (most now : ℕ) (c : Cache) where
  pub sweep-IsCoherent : IsCoherent most c → IsCoherent most (sweep now c)
  unfolding sweep
  sweep-IsCoherent h = elim (Bool-cases (ltb 0 (sweep_entries now c.store c 0).1)) [
    | inl some_gone ↦
        rw (some_gone, sweep)
          (metrics-IsCoherent _ (sweep_entries-IsCoherent most now c.store c 0 h))
    | inr none_gone ↦ rw (none_gone, sweep) (sweep_entries-IsCoherent most now c.store c 0 h)
  ]

  pub get-sweep :
      (key : String)
      → IsUnique c.store
      → get key (sweep now c).store
        ≡ (if is_expired now (get key c.store) then none else get key c.store)
  unfolding sweep
  get-sweep key u = ground (arith, get-sweep_entries most now key c.store c 0 u)

  pub size-sweep-le : size (sweep now c).store ≤ size c.store
  unfolding sweep
  size-sweep-le = ground (arith, size-sweep_entries-le most now c.store c 0)

module _ (most : ℕ) (key : String) (c : Cache) where
  pub drop_key-IsCoherent : IsCoherent most c → IsCoherent most (drop_key key c).0
  unfolding drop_key
  drop_key-IsCoherent h = elim (Bool-cases (has key c.store)) [
    | inl here ↦ rw (here, drop_key) (metrics-IsCoherent _ (remove_key-IsCoherent most key c h))
    | inr gone ↦ rw (gone, drop_key) h
  ]

  -- `dropKey` removes the key's entry and no other, and tells whether there was one.
  pub drop_key_lem :
      (j : String)
      → ((drop_key key c).1 ≡ has key c.store)
        × (get j (drop_key key c).0.store ≡ (if key === j then none else get j c.store))
  unfolding drop_key
  drop_key_lem j =
      ground (arith, store-remove_key most key c, get-delete key j c.store, eq_iff key j)

-- Has the expiry time passed? (A sweep also removes an entry at its expiry time.)
abbrev pub is_past : ℕ → Option CacheEntry → Bool
is_past now none = false
is_past now (some e) = ltb e.expires_at now

module _ (most : ℕ) (key : String) (require_verified : Bool) (now : ℕ) (c : Cache) where
  fetch_found-IsCoherent :
      (o : Option CacheEntry)
      → IsCoherent most c
      → IsCoherent most (fetch_found key require_verified now o c).0
  unfolding fetch_found
  fetch_found-IsCoherent none h = metrics-IsCoherent _ h
  fetch_found-IsCoherent (some entry) h = elim (Bool-cases (ltb entry.expires_at now)) [
    | inl old ↦ rw (old, fetch_found) (metrics-IsCoherent _ (remove_key-IsCoherent most key c h))
    | inr fresh ↦ elim (Bool-cases (require_verified && not (is_verified entry.integrity))) [
      | inl blocked ↦ rw (fresh, blocked, fetch_found) (metrics-IsCoherent _ h)
      | inr open_ ↦
          rw (fresh, open_, fetch_found) (metrics-IsCoherent _ (touch_key-IsCoherent most key c h))
    ]
  ]

  pub fetch_entry-IsCoherent :
      IsCoherent most c → IsCoherent most (fetch_entry key require_verified now c).0
  unfolding fetch_entry
  fetch_entry-IsCoherent h = fetch_found-IsCoherent (get key c.store) h

  -- The answer of a read is decided by the entry alone.
  abbrev answer : Option CacheEntry → CacheFetchResult
  answer none = miss
  answer (some entry) =
      if ltb entry.expires_at now
      then expired
      else if require_verified && not (is_verified entry.integrity)
      then unverified
      else hit entry.value entry.integrity

  -- `fetchEntry` answers a miss without an entry, `expired` after the expiry time, `unverified` if
  -- the caller requires a verified entry and it is not one, and else the entry with its metadata.
  -- An expired entry is removed; every other entry stays what it was.
  pub fetch_entry_lem :
      (j : String)
      → ((fetch_entry key require_verified now c).1 ≡ answer (get key c.store))
        × (get j (fetch_entry key require_verified now c).0.store
            ≡ (if (key === j) && (is_past now (get key c.store)) then none else get j c.store))
  unfolding fetch_entry
  fetch_entry_lem j = elim (Option-cases (get key c.store)) [
    | inl e ↦ ground (arith, eq_iff key j)
    | inr (entry, e) ↦ ground (
      arith,
      eq_iff key j,
      store-remove_key most key c,
      get-delete key j c.store,
      get-touch_key most key c j,
    )
  ]

  pub size-fetch_entry-le :
      IsUnique c.store → size (fetch_entry key require_verified now c).0.store ≤ size c.store
  unfolding fetch_entry
  size-fetch_entry-le u =
      ground (
        arith,
        store-remove_key most key c,
        size-delete-le key c.store,
        size-touch_key most key c u,
      )

  -- With `requireVerified` a read that is a hit serves the value and the metadata of the entry stored
  -- under the key, the metadata of that entry mark it verified, and its expiry time has not passed.
  pub fetch_entry_verified :
      (value : ArrayBuffer) (integrity : Option CacheIntegrityMeta)
      → require_verified ≡ true
      → (fetch_entry key require_verified now c).1 ≡ hit value integrity
      → (entry : CacheEntry) × (meta : CacheIntegrityMeta) × (get key c.store ≡ some entry)
        × (entry.value ≡ value)
        × (entry.integrity ≡ some meta)
        × (integrity ≡ some meta)
        × (meta.verified ≡ true)
        × (now ≤ entry.expires_at)
  unfolding fetch_entry
  fetch_entry_verified value integrity strict served = elim (Option-cases (get key c.store)) [
    | inl e ↦ ground arith
    | inr (entry, e) ↦ elim (Option-cases entry.integrity) [
      | inl bare ↦ ground (arith, bare, e)
      | inr (meta, marked) ↦ (
        entry,
        meta,
        e,
        ground (arith, e),
        marked,
        ground (arith, marked, e),
        ground (arith, marked, e),
        ground (arith, e),
      )
    ]
  ]

module _ (most : ℕ) (key : String) (c : Cache) where
  pub size-drop_key-le : size (drop_key key c).0.store ≤ size c.store
  unfolding drop_key
  size-drop_key-le = ground (arith, store-remove_key most key c, size-delete-le key c.store)
