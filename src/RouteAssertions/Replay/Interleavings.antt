-- ===== src/RouteAssertions/Replay/Interleavings.antt =====
-- Claims that interleave, workers/secrets-worker/src/routeAssertionReplay.ts.
use blackcat_darkmesh_gatewa.RouteAssertions.Replay.{
  fresh, reading, writing, World, Event, claimed, read, written, claim, exists_at, after_read,
  after_write, step,
}
use blackcat_darkmesh_gatewa.Base.{
  ◌≤◌, ◌≡◌, String, false, some, List, [], ◌∷◌, eq_refl, arith, if◌then◌else◌,
}
use blackcat_darkmesh_gatewa.JsMap.{JsMap, get, set, has}
use blackcat_darkmesh_gatewa.RouteAssertions.Replay.Sound.{IsSound, IsNew, fresh_answers}
use blackcat_darkmesh_gatewa.RouteAssertions.Replay.Steps.{step-IsSound}
use blackcat_darkmesh_gatewa.JsMap.Laws.{get-set}

unfoldable pub run : List Event → World → World
run [] w = w
run (e ∷ events) w = run events (step e w)

unfoldable pub AllNew : List Event → World → Type 0
AllNew [] w = Unit
AllNew (e ∷ events) w = IsNew e w × AllNew events (step e w)

pub run-IsSound :
    (start : JsMap String) (events : List Event) (w : World)
    → IsSound start w
    → AllNew events w
    → IsSound start (run events w)
unfolding run AllNew
run-IsSound start [] w s new = s
run-IsSound start (e ∷ events) w s (new, all_new) =
    run-IsSound start events (step e w) (step-IsSound start e w s new) all_new

start-IsSound :
    (kv : JsMap String)
    → IsSound kv (record { local_claim_locks = []; kv = kv; tasks = []; answers = [] })
unfolding get fresh_answers
start-IsSound kv = record {
  locked = λ i t held. cc;
  alone = λ i j t u held_i held_j same. cc;
  counted = λ k. omega arith;
  unwritten = λ i k held. cc;
}

-- Once for each nonce. Start with no claim under way and any KV store, and let claims interleave in any order,
-- with any failures of the store, each claim under a name that no waiting claim has. Then for each key at
-- most one claim is answered as new, and none if the store held the key at the start.
pub fresh_once :
    (kv : JsMap String) (events : List Event) (k : String)
    → let start : World = record { local_claim_locks = []; kv = kv; tasks = []; answers = [] } in
      AllNew events start
      → fresh_answers k (run events start).answers ≤ (if exists_at k kv then 0 else 1)
fresh_once kv events k new =
    let start : World = record { local_claim_locks = []; kv = kv; tasks = []; answers = [] } in
    ground (arith, (run-IsSound kv events start (start-IsSound kv) new).counted k)

-- A claim that no other interleaves with, of a key that is not locked and not in the store, is answered as new.
pub claim_alone :
    (id key : String) (w : World)
    → has key w.local_claim_locks ≡ false
    → exists_at key w.kv ≡ false
    → (run (claimed id key ∷ read id ∷ written id ∷ []) w).answers ≡ (key, fresh) ∷ w.answers
unfolding run step claim after_read after_write
claim_alone id key w free new =
    let reads = set id (reading key) w.tasks in
    let waits : get id reads ≡ some (reading key) =
      ground (arith, get-set id id (reading key) w.tasks, eq_refl id) in
    let waits_again : get id (set id (writing key) reads) ≡ some (writing key) =
      ground (arith, get-set id id (writing key) reads, eq_refl id) in
    ground (arith, free, new, waits, waits_again)
