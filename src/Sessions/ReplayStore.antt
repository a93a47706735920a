-- ===== src/Sessions/ReplayStore.antt =====
-- src/runtime/sessions/replayStore.ts: the store of keys that were seen, with expiry, a sweep
-- interval and a capacity. Times are milliseconds; `nowFn()` is the argument `now`. The comparison
-- `now - lastSweepAt < sweepIntervalMs` is written without the subtraction.
pub mod Steps
pub mod Marks
pub mod Histories
mod Tests
use Prim.Native.String.{len}
use blackcat_darkmesh_gatewa.Base.{
  ℕ, zero, suc, ◌+◌, String, Bool, true, false, Option, none, some, List, [], ◌∷◌, ltb, leb,
  if◌then◌else◌,
}
use blackcat_darkmesh_gatewa.JsMap.{
  JsMap, get, set, delete, size, delete_where, delete_oldest_while,
}

pub record ReplayStoreOptions : Type 0 where
  pub ttl_ms : ℕ
  pub max_keys : ℕ
  pub sweep_interval_ms : ℕ
  pub key_max_bytes : ℕ

pub record ReplayStoreMarkResult : Type 0 where
  pub replay : Bool
  pub rejected : Bool
  pub pruned : ℕ
  pub size_after : ℕ

pub record ReplayStore : Type 0 where
  pub options : ReplayStoreOptions
  pub seen : JsMap ℕ
  pub last_sweep_at : ℕ

abbrev pub init : ReplayStoreOptions → ReplayStore
init options = record { options = options; seen = []; last_sweep_at = 0 }

-- `encoder.encode(value).byteLength`
abbrev pub byte_length : String → ℕ
byte_length value = len value

abbrev pub is_expired : ℕ → ℕ → Bool
is_expired now expires_at = leb expires_at now

unfoldable pub sweep_expired : JsMap ℕ → ℕ → JsMap ℕ × ℕ
sweep_expired seen now = delete_where (is_expired now) seen seen 0

unfoldable pub sweep : ReplayStore → ℕ → ReplayStore × ℕ
sweep s now =
    let (seen, removed) = sweep_expired s.seen now in
    (record s { seen = seen; last_sweep_at = now }, removed)

unfoldable pub maybe_sweep : ReplayStore → ℕ → ReplayStore × ℕ
maybe_sweep s now =
    if leb s.options.max_keys (size s.seen)
    then sweep s now
    else if ltb now (s.last_sweep_at + s.options.sweep_interval_ms)
    then (s, 0)
    else sweep s now

-- The fuel is the number of entries: each round removes one.
unfoldable pub prune_to_capacity : ReplayStore → ReplayStore × ℕ
prune_to_capacity s =
    let (seen, removed) = delete_oldest_while (leb s.options.max_keys) (size s.seen) s.seen 0 in
    (record s { seen = seen }, removed)

abbrev pub write : ReplayStore → String → ℕ → ReplayStore
write s key now = record s { seen = set key (now + s.options.ttl_ms) s.seen }

-- The last part of `markAndCheck`, for a key that is not held: `pruned` comes from the sweep.
unfoldable pub mark_new : ReplayStore → String → ℕ → ℕ → ReplayStore × ReplayStoreMarkResult
mark_new s key now pruned =
    let (cut, removed) = prune_to_capacity s in
    let next = write cut key now in
    (
      next,
      record {
        replay = false;
        rejected = false;
        pruned = pruned + removed;
        size_after = size next.seen;
      },
    )

-- `prev` is what the map holds for the key after the sweep.
unfoldable pub mark_prev :
    ReplayStore → String → ℕ → ℕ → Option ℕ → ReplayStore × ReplayStoreMarkResult
mark_prev s key now pruned none = mark_new s key now pruned
mark_prev s key now pruned (some prev) =
    if ltb now prev
    then (
      write s key now,
      record {
        replay = true;
        rejected = false;
        pruned = pruned;
        size_after = size (write s key now).seen;
      },
    )
    else mark_new (record s { seen = delete key s.seen }) key now pruned

unfoldable pub mark_and_check : ReplayStore → String → ℕ → ReplayStore × ReplayStoreMarkResult
mark_and_check s key now =
    if ltb s.options.key_max_bytes (byte_length key)
    then (s, record { replay = true; rejected = true; pruned = 0; size_after = size s.seen })
    else let (swept, pruned) = maybe_sweep s now in
      mark_prev swept key now pruned (get key swept.seen)
