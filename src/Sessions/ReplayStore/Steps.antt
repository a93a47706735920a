-- ===== src/Sessions/ReplayStore/Steps.antt =====
-- The steps of `markAndCheck` in src/runtime/sessions/replayStore.ts: the sweep, the pruning and the
-- write, each with what it keeps.
use blackcat_darkmesh_gatewa.Base.{
  ℕ, ◌+◌, ◌≤◌, ◌<◌, ◌≡◌, refl, ◌⊎◌, inl, inr, String, false, Option, none, some, ◌===◌, eq_iff,
  arith, ltb, leb, if◌then◌else◌, is_some, Bool-cases,
}
use blackcat_darkmesh_gatewa.JsMap.{get, delete, size, IsUnique}
use blackcat_darkmesh_gatewa.JsMap.Laws.{get-set, get-delete, set-IsUnique, delete-IsUnique}
use blackcat_darkmesh_gatewa.JsMap.Sizes.{size-set, size-delete-le}
use blackcat_darkmesh_gatewa.JsMap.Sweeps.{
  get-delete_where, delete_where-IsUnique, size-delete_where-le, delete_oldest_while_stops,
  delete_oldest_while-IsUnique, get-delete_oldest_while, delete_oldest_while_idle,
  size-delete_oldest_while-le,
}
use blackcat_darkmesh_gatewa.Sessions.ReplayStore.{
  ReplayStore, is_expired, sweep_expired, sweep, maybe_sweep, prune_to_capacity, write, mark_new,
  mark_prev,
}

-- The map holds no key twice, and no more keys than the capacity.
pub record IsValid (s : ReplayStore) : Type 0 where
  pub unique : IsUnique s.seen
  pub room : 0 < s.options.max_keys
  pub bounded : size s.seen ≤ s.options.max_keys

-- The expiry time that the store holds for a key, if it lies ahead of `now`.
abbrev pub live : ℕ → Option ℕ → Option ℕ
live now none = none
live now (some e) = if ltb now e then some e else none

module _ (s : ReplayStore) (now : ℕ) where
  pub options-maybe_sweep : (maybe_sweep s now).0.options ≡ s.options
  unfolding maybe_sweep sweep
  options-maybe_sweep = ground arith

  pub maybe_sweep-IsValid : IsValid s → IsValid (maybe_sweep s now).0
  unfolding maybe_sweep sweep sweep_expired
  maybe_sweep-IsValid v = ground (
    arith,
    delete_where-IsUnique (is_expired now) s.seen s.seen 0,
    size-delete_where-le (is_expired now) s.seen s.seen 0,
  )

  -- A sweep takes out only what has expired.
  pub live-maybe_sweep :
      (key : String)
      → IsValid s
      → live now (get key (maybe_sweep s now).0.seen) ≡ live now (get key s.seen)
  unfolding maybe_sweep sweep sweep_expired
  live-maybe_sweep key v = ground (arith, get-delete_where (is_expired now) key s.seen 0 v.unique)

  -- After a sweep the store may still hold the key with an expired time, or not at all.
  pub get-maybe_sweep :
      (key : String)
      → IsValid s
      → (get key (maybe_sweep s now).0.seen ≡ none)
        ⊎ (get key (maybe_sweep s now).0.seen ≡ get key s.seen)
  unfolding maybe_sweep sweep sweep_expired
  get-maybe_sweep key v = ground (arith, get-delete_where (is_expired now) key s.seen 0 v.unique)

  pub size-maybe_sweep-le : size (maybe_sweep s now).0.seen ≤ size s.seen
  unfolding maybe_sweep sweep sweep_expired
  size-maybe_sweep-le = ground (arith, size-delete_where-le (is_expired now) s.seen s.seen 0)

module _ (s : ReplayStore) where
  pub size-prune_to_capacity-le : size (prune_to_capacity s).0.seen ≤ size s.seen
  unfolding prune_to_capacity
  size-prune_to_capacity-le =
      size-delete_oldest_while-le (leb s.options.max_keys) (size s.seen) s.seen 0

  pub options-prune_to_capacity : (prune_to_capacity s).0.options ≡ s.options
  unfolding prune_to_capacity
  options-prune_to_capacity = refl

  -- The loop makes room for one more key.
  pub size-prune_to_capacity : IsValid s → size (prune_to_capacity s).0.seen < s.options.max_keys
  unfolding prune_to_capacity
  size-prune_to_capacity v =
      ground (arith, delete_oldest_while_stops (leb s.options.max_keys) (size s.seen) s.seen 0)

  pub IsUnique-prune_to_capacity : IsValid s → IsUnique (prune_to_capacity s).0.seen
  unfolding prune_to_capacity
  IsUnique-prune_to_capacity v =
      delete_oldest_while-IsUnique (leb s.options.max_keys) (size s.seen) s.seen 0 v.unique

  pub get-prune_to_capacity :
      (key : String)
      → IsValid s
      → (get key (prune_to_capacity s).0.seen ≡ none)
        ⊎ (get key (prune_to_capacity s).0.seen ≡ get key s.seen)
  unfolding prune_to_capacity
  get-prune_to_capacity key v =
      get-delete_oldest_while (leb s.options.max_keys) key (size s.seen) s.seen 0 v.unique

  pub prune_to_capacity_idle : size s.seen < s.options.max_keys → (prune_to_capacity s).0 ≡ s
  unfolding prune_to_capacity
  prune_to_capacity_idle h =
      rw (delete_oldest_while_idle (leb s.options.max_keys) (size s.seen) s.seen 0 (ground arith))

-- The rest of `markAndCheck`, once the sweep is done.
module _ (s : ReplayStore) (key : String) (now pruned : ℕ) where
  mark_new-IsValid : IsValid s → IsValid (mark_new s key now pruned).0
  unfolding mark_new
  mark_new-IsValid v = ground (
    arith,
    IsUnique-prune_to_capacity s v,
    size-prune_to_capacity s v,
    options-prune_to_capacity s,
    set-IsUnique key (now + (prune_to_capacity s).0.options.ttl_ms) (prune_to_capacity s).0.seen,
    size-set key (now + (prune_to_capacity s).0.options.ttl_ms) (prune_to_capacity s).0.seen,
  )

  get-mark_new :
      (j : String)
      → get j (mark_new s key now pruned).0.seen
        ≡ (if key === j then some (now + s.options.ttl_ms) else get j (prune_to_capacity s).0.seen)
  unfolding mark_new
  get-mark_new j = ground (
    arith,
    get-set key j (now + (prune_to_capacity s).0.options.ttl_ms) (prune_to_capacity s).0.seen,
    options-prune_to_capacity s,
  )

module _ (s : ReplayStore) (key : String) (now pruned : ℕ) where
  abbrev without : ReplayStore
  without = record s { seen = delete key s.seen }

  without-IsValid : IsValid s → IsValid without
  without-IsValid v = ground (arith, delete-IsUnique key s.seen, size-delete-le key s.seen)

  write-IsValid : (e : ℕ) → get key s.seen ≡ some e → IsValid s → IsValid (write s key now)
  write-IsValid e held v = ground (
    arith,
    set-IsUnique key (now + s.options.ttl_ms) s.seen,
    size-set key (now + s.options.ttl_ms) s.seen,
  )

  pub mark_prev-IsValid :
      (prev : Option ℕ)
      → get key s.seen ≡ prev
      → IsValid s
      → IsValid (mark_prev s key now pruned prev).0
  unfolding mark_prev
  mark_prev-IsValid none held v = mark_new-IsValid s key now pruned v
  mark_prev-IsValid (some e) held v = elim (Bool-cases (ltb now e)) [
    | inl ahead ↦ rw ahead (write-IsValid e held v)
    | inr past ↦ rw past (mark_new-IsValid without key now pruned (without-IsValid v))
  ]

  -- The answer is whether the store held the key with a time ahead.
  pub replay-mark_prev :
      (prev : Option ℕ)
      → ((mark_prev s key now pruned prev).1.replay ≡ is_some (live now prev))
        × ((mark_prev s key now pruned prev).1.rejected ≡ false)
  unfolding mark_prev mark_new
  replay-mark_prev none = (refl, refl)
  replay-mark_prev (some e) = ground arith

  pub get-mark_prev_self :
      (prev : Option ℕ)
      → get key (mark_prev s key now pruned prev).0.seen ≡ some (now + s.options.ttl_ms)
  unfolding mark_prev
  get-mark_prev_self none = ground (arith, get-mark_new s key now pruned key, eq_iff key key)
  get-mark_prev_self (some e) = ground (
    arith,
    get-mark_new without key now pruned key,
    get-set key key (now + s.options.ttl_ms) s.seen,
    eq_iff key key,
  )

  -- Another key is kept or evicted; it is kept if there is room.
  pub get-mark_prev_other :
      (prev : Option ℕ) (j : String)
      → IsValid s
      → (key === j) ≡ false
      → (get j (mark_prev s key now pruned prev).0.seen ≡ get j s.seen)
        ⊎ (get j (mark_prev s key now pruned prev).0.seen ≡ none)
  unfolding mark_prev
  get-mark_prev_other none j v other =
      ground (arith, get-mark_new s key now pruned j, get-prune_to_capacity s j v)
  get-mark_prev_other (some e) j v other = ground (
    arith,
    get-mark_new without key now pruned j,
    get-prune_to_capacity without j (without-IsValid v),
    get-set key j (now + s.options.ttl_ms) s.seen,
    get-delete key j s.seen,
  )

  pub get-mark_prev_room :
      (prev : Option ℕ) (j : String)
      → size s.seen < s.options.max_keys
      → (key === j) ≡ false
      → get j (mark_prev s key now pruned prev).0.seen ≡ get j s.seen
  unfolding mark_prev
  get-mark_prev_room none j room other =
      ground (arith, get-mark_new s key now pruned j, prune_to_capacity_idle s room)
  get-mark_prev_room (some e) j room other = ground (
    arith,
    get-mark_new without key now pruned j,
    prune_to_capacity_idle without,
    size-delete-le key s.seen,
    get-set key j (now + s.options.ttl_ms) s.seen,
    get-delete key j s.seen,
  )

  pub options-mark_prev :
      (prev : Option ℕ) → (mark_prev s key now pruned prev).0.options ≡ s.options
  unfolding mark_prev mark_new
  options-mark_prev none = options-prune_to_capacity s
  options-mark_prev (some e) = ground (arith, options-prune_to_capacity without)

  size-mark_new-le : (t : ReplayStore) → size (mark_new t key now pruned).0.seen ≤ size t.seen + 1
  unfolding mark_new
  size-mark_new-le t = ground (
    arith,
    size-prune_to_capacity-le t,
    size-set key (now + (prune_to_capacity t).0.options.ttl_ms) (prune_to_capacity t).0.seen,
  )

  pub size-mark_prev-le :
      (prev : Option ℕ) → size (mark_prev s key now pruned prev).0.seen ≤ size s.seen + 1
  unfolding mark_prev
  size-mark_prev-le none = size-mark_new-le s
  size-mark_prev-le (some e) = ground (
    arith,
    size-mark_new-le without,
    size-delete-le key s.seen,
    size-set key (now + s.options.ttl_ms) s.seen,
  )
