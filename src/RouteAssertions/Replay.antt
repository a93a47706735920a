-- ===== src/RouteAssertions/Replay.antt =====
-- workers/secrets-worker/src/routeAssertionReplay.ts: claims of nonces. A claim that uses the
-- KV store waits for it twice, so that claims interleave: each wait ends one of the steps below. Times
-- are whole seconds; that the KV store forgets a key after its time to live is left out.
pub mod Sound
pub mod Steps
pub mod Interleavings
pub mod Memory
pub mod Guard
mod Tests
use Prim.Native.String.{◌++◌ as ◌+++◌}
use blackcat_darkmesh_gatewa.Text.{trim, to_lower, parse_positive}
use blackcat_darkmesh_gatewa.Base.{
  ℕ, zero, suc, ◌+◌, ◌-◌, ◌*◌, ◌/◌, ◌%◌, ◌^◌, ◌≤◌, ◌<◌, min, max, ◌≡◌, refl, sym, ap, ◌∙◌, subst,
  ◌≢◌, ◌↔◌, ◌⊎◌, inl, inr, String, Bool, true, false, ◌&&◌, ◌||◌, not, Option, none, some, List, [],
  ◌∷◌, ◌++◌, map, ◌===◌, eq_iff, eq_refl, arith, ltb, leb, ◌==◌, if◌then◌else◌, is_some, or_else,
  option_map, Bool-cases, Option-cases, length, length-append, All, All-append, Any, leb→le, le→leb,
  ltb→lt, lt→ltb,
}
use blackcat_darkmesh_gatewa.JsMap.{
  JsMap, get, set, delete, has, size, first_key, delete_where, delete_oldest_while, IsUnique,
}

pub data ReplayClaimResult : Type 0 where
  fresh : ReplayClaimResult
  replayed : ReplayClaimResult
  refused : String → ReplayClaimResult

pub data EnvValue : Type 0 where
  a_boolean : Bool → EnvValue
  a_number : ℕ → EnvValue
  a_text : String → EnvValue
  no_value : EnvValue

pub record Env : Type 0 where
  pub route_assert_verify_replay_enabled : EnvValue
  pub test_in_memory_kv : EnvValue
  pub route_assert_verify_replay_ttl_sec : EnvValue
  pub has_inbox_kv : Bool

unfoldable pub parse_boolean_like : EnvValue → Bool
parse_boolean_like (a_boolean value) = value
parse_boolean_like (a_number value) = value == 1
parse_boolean_like (a_text value) =
    let normalized = to_lower (trim value) in
    normalized === "1" || normalized === "true" || normalized === "yes"
parse_boolean_like no_value = false

abbrev pub clean_env : EnvValue → String
clean_env (a_text value) = trim value
clean_env value = ""

abbrev pub max_replay_ttl_sec : ℕ
max_replay_ttl_sec = 86400

unfoldable pub replay_ttl : ℕ → Env → ℕ → ℕ
replay_ttl assertion_exp env now =
    let configured =
      or_else (parse_positive (clean_env env.route_assert_verify_replay_ttl_sec)) 0 in
    if ltb 0 configured
    then min max_replay_ttl_sec (max 1 configured)
    else min max_replay_ttl_sec (max 1 (assertion_exp - now))

abbrev pub is_past : ℕ → ℕ → Bool
is_past now exp = leb exp now

-- The claim against the map of this process, where nothing interleaves.
unfoldable pub claim_in_memory : String → ℕ → ℕ → JsMap ℕ → JsMap ℕ × ReplayClaimResult
claim_in_memory key now ttl memory =
    let rest = (delete_where (is_past now) memory memory 0).0 in
    elim (get key rest) [
      | none ↦ (set key (now + ttl) rest, fresh)
      | some seen_until ↦
          if ltb now seen_until then (rest, replayed) else (set key (now + ttl) rest, fresh)
    ]

-- A claim that waits: for the answer to its `get`, or for that to its `put`.
pub data Task : Type 0 where
  reading : String → Task
  writing : String → Task

abbrev pub key_of : Task → String
key_of (reading key) = key
key_of (writing key) = key

-- The locks of the process, the KV store, the claims that wait by a name for each, and what was answered
-- for which key.
pub record World : Type 0 where
  pub local_claim_locks : JsMap Bool
  pub kv : JsMap String
  pub tasks : JsMap Task
  pub answers : List (String × ReplayClaimResult)

pub data Event : Type 0 where
  claimed : String → String → Event
  read : String → Event
  read_failed : String → Event
  written : String → Event
  write_failed : String → Bool → Event

-- The claim answers and its lock is released: `finally`.
abbrev pub finish : String → String → ReplayClaimResult → World → World
finish id key result w = record w {
  local_claim_locks = delete key w.local_claim_locks;
  tasks = delete id w.tasks;
  answers = (key, result) ∷ w.answers;
}

unfoldable pub claim : String → String → World → World
claim id key w =
    if has key w.local_claim_locks
    then record w { answers = (key, replayed) ∷ w.answers }
    else record w {
      local_claim_locks = set key true w.local_claim_locks;
      tasks = set id (reading key) w.tasks;
    }

-- `if (existing)`: an empty text is as good as none.
abbrev pub exists_at : String → JsMap String → Bool
exists_at key kv = elim (get key kv) [ none ↦ false | some value ↦ not (value === "") ]

unfoldable pub after_read : Option Task → String → World → World
after_read (some (reading key)) id w =
    if exists_at key w.kv
    then finish id key replayed w
    else record w { tasks = set id (writing key) w.tasks }
after_read _ id w = w

unfoldable pub after_write : Option Task → String → World → World
after_write (some (writing key)) id w = finish id key fresh (record w { kv = set key "1" w.kv })
after_write _ id w = w

unfoldable pub after_read_failure : Option Task → String → World → World
after_read_failure (some (reading key)) id w = finish id key (refused "replay_store_error") w
after_read_failure _ id w = w

-- A `put` that fails may have stored the key all the same.
unfoldable pub after_write_failure : Option Task → String → Bool → World → World
after_write_failure (some (writing key)) id stored w =
    finish id key (refused "replay_store_error")
      (record w { kv = if stored then set key "1" w.kv else w.kv })
after_write_failure _ id stored w = w

-- What a step does. An answer for a claim that does not wait for it does nothing.
unfoldable pub step : Event → World → World
step (claimed id key) w = claim id key w
step (read id) w = after_read (get id w.tasks) id w
step (read_failed id) w = after_read_failure (get id w.tasks) id w
step (written id) w = after_write (get id w.tasks) id w
step (write_failed id stored) w = after_write_failure (get id w.tasks) id stored w

pub record Assertion : Type 0 where
  pub challenge_nonce : String
  pub domain : String
  pub cfg_tx : String
  pub exp : ℕ

abbrev pub replay_key : Assertion → String
replay_key a =
    "route-assert:verify:" +++ (a.domain +++ (":" +++ (a.cfg_tx +++ (":" +++ a.challenge_nonce))))

pub record Service : Type 0 where
  pub memory_replay : JsMap ℕ
  pub world : World

abbrev in_memory : Service → JsMap ℕ × ReplayClaimResult → Service × Option ReplayClaimResult
in_memory s (memory, result) = (record s { memory_replay = memory }, some result)

-- The beginning of a claim, up to its answer or its first wait for the store, for which there is no answer yet.
unfoldable pub claim_route_assertion_replay :
    Env → Assertion → String → ℕ → Service → Service × Option ReplayClaimResult
claim_route_assertion_replay env assertion id now s =
    let key = replay_key assertion in
    let ttl = replay_ttl assertion.exp env now in
    if not (parse_boolean_like env.route_assert_verify_replay_enabled)
    then (s, some fresh)
    else if ttl == 0
    then (s, some (refused "replay_ttl_invalid"))
    else if parse_boolean_like env.test_in_memory_kv || not env.has_inbox_kv
    then in_memory s (claim_in_memory key now ttl s.memory_replay)
    else (
      record s { world = claim id key s.world },
      if has key s.world.local_claim_locks then some replayed else none,
    )
