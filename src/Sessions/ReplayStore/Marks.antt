-- ===== src/Sessions/ReplayStore/Marks.antt =====
-- What one `markAndCheck` of src/runtime/sessions/replayStore.ts does.
use blackcat_darkmesh_gatewa.Base.{
  ℕ, ◌+◌, ◌≤◌, ◌<◌, ◌≡◌, refl, ◌⊎◌, inl, inr, String, Bool, true, false, none, some, ◌===◌, arith,
  ltb, is_some, Bool-cases,
}
use blackcat_darkmesh_gatewa.JsMap.{get, size}
use blackcat_darkmesh_gatewa.Sessions.ReplayStore.{
  ReplayStore, byte_length, maybe_sweep, mark_and_check,
}
use blackcat_darkmesh_gatewa.Sessions.ReplayStore.Steps.{
  IsValid, live, options-maybe_sweep, maybe_sweep-IsValid, live-maybe_sweep, get-maybe_sweep,
  mark_prev-IsValid, replay-mark_prev, get-mark_prev_self, get-mark_prev_other, get-mark_prev_room,
  options-mark_prev, size-maybe_sweep-le, size-mark_prev-le,
}

module _ (s : ReplayStore) (key : String) (now : ℕ) where
  abbrev swept : ReplayStore
  swept = (maybe_sweep s now).0

  abbrev is_long : Bool
  is_long = ltb s.options.key_max_bytes (byte_length key)

  pub options-mark_and_check : (mark_and_check s key now).0.options ≡ s.options
  unfolding mark_and_check
  options-mark_and_check = ground (
    arith,
    options-maybe_sweep s now,
    options-mark_prev swept key now (maybe_sweep s now).1 (get key swept.seen),
  )

  -- Every call of `markAndCheck` on a store with distinct keys, a positive capacity and at most that
  -- many keys leaves a store of that kind.
  pub mark_and_check-IsValid : IsValid s → IsValid (mark_and_check s key now).0
  unfolding mark_and_check
  mark_and_check-IsValid v = elim (Bool-cases is_long) [
    | inl long ↦ rw long v
    | inr short ↦ rw short (
        mark_prev-IsValid swept key now (maybe_sweep s now).1 (get key swept.seen) refl
          (maybe_sweep-IsValid s now v))
  ]

  -- A key that is too long is refused as a replay, and the store is left as it was.
  pub mark_and_check_long :
      s.options.key_max_bytes < byte_length key
      → ((mark_and_check s key now).0 ≡ s)
        × ((mark_and_check s key now).1.replay ≡ true)
        × ((mark_and_check s key now).1.rejected ≡ true)
  unfolding mark_and_check
  mark_and_check_long long = ground arith

  -- For a key within the byte limit and a valid store, `markAndCheck` answers a replay exactly when
  -- the store holds the key with an expiry time ahead of the clock; it does not reject, and the
  -- store then holds the key until `ttlMs` after the call.
  pub mark_and_check-replay :
      byte_length key ≤ s.options.key_max_bytes
      → IsValid s
      → ((mark_and_check s key now).1.replay ≡ is_some (live now (get key s.seen)))
        × ((mark_and_check s key now).1.rejected ≡ false)
        × (get key (mark_and_check s key now).0.seen ≡ some (now + s.options.ttl_ms))
  unfolding mark_and_check
  mark_and_check-replay short v =
      let at = get key swept.seen in
      ground (
        arith,
        replay-mark_prev swept key now (maybe_sweep s now).1 at,
        get-mark_prev_self swept key now (maybe_sweep s now).1 at,
        options-maybe_sweep s now,
        live-maybe_sweep s now key v,
      )

  -- What a call does to the entry of another key: nothing, or it is gone.
  pub get-mark_and_check_other :
      (j : String)
      → IsValid s
      → (key === j) ≡ false
      → (get j (mark_and_check s key now).0.seen ≡ get j s.seen)
        ⊎ (get j (mark_and_check s key now).0.seen ≡ none)
  unfolding mark_and_check
  get-mark_and_check_other j v other = ground (
    arith,
    get-mark_prev_other swept key now (maybe_sweep s now).1 (get key swept.seen) j
        (maybe_sweep-IsValid s now v) other,
    get-maybe_sweep s now j v,
  )

  -- With room, an entry that has not expired stays.
  pub live-mark_and_check_room :
      (j : String)
      → IsValid s
      → size s.seen < s.options.max_keys
      → (key === j) ≡ false
      → live now (get j (mark_and_check s key now).0.seen) ≡ live now (get j s.seen)
  unfolding mark_and_check
  live-mark_and_check_room j v room other = ground (
    arith,
    get-mark_prev_room swept key now (maybe_sweep s now).1 (get key swept.seen) j,
    live-maybe_sweep s now j v,
    size-maybe_sweep-le s now,
    options-maybe_sweep s now,
  )

  -- One call adds one key at most.
  pub size-mark_and_check-le : size (mark_and_check s key now).0.seen ≤ size s.seen + 1
  unfolding mark_and_check
  size-mark_and_check-le = ground (
    arith,
    size-mark_prev-le swept key now (maybe_sweep s now).1 (get key swept.seen),
    size-maybe_sweep-le s now,
  )
