-- ===== src/RouteAssertions/Replay/Tests.antt =====
-- Claims of nonces by example: two that interleave, one that fails, one in memory.
use blackcat_darkmesh_gatewa.RouteAssertions.Replay.{
  fresh, replayed, refused, World, Event, claimed, read, read_failed, written, claim, after_read,
  after_write, after_read_failure, step, a_text, a_number, no_value, Env, parse_boolean_like,
  claim_in_memory,
}
use blackcat_darkmesh_gatewa.Text.{trim, trim_start, trim_end, to_lower}
use blackcat_darkmesh_gatewa.Base.{
  ℕ, ◌≤◌, ◌≡◌, refl, String, true, ◌&&◌, not, none, some, List, [], ◌∷◌, ◌===◌, if◌then◌else◌,
}
use blackcat_darkmesh_gatewa.JsMap.{JsMap, get, set, delete, IsUnique}
use blackcat_darkmesh_gatewa.RouteAssertions.Replay.Sound.{fresh_answers}
use blackcat_darkmesh_gatewa.RouteAssertions.Replay.Interleavings.{
  run, AllNew, fresh_once, claim_alone,
}
use blackcat_darkmesh_gatewa.RouteAssertions.Replay.Memory.{is_held, claim_in_memory_lem}

abbrev start : World
start = record { local_claim_locks = []; kv = []; tasks = []; answers = [] }

abbrev events : List Event
events =
    claimed "1" "n"
    ∷ claimed "2" "n"
    ∷ read "1"
    ∷ claimed "3" "m"
    ∷ written "1"
    ∷ claimed "4" "n"
    ∷ read "4"
    ∷ read_failed "3"
    ∷ []

answered :
    (run events start).answers
    ≡ ("m", refused "replay_store_error") ∷ ("n", replayed) ∷ ("n", fresh) ∷ ("n", replayed) ∷ []
unfolding run step claim after_read after_write after_read_failure get set delete
answered = refl

events-AllNew : AllNew events start
unfolding AllNew step claim after_read after_write after_read_failure get set delete
events-AllNew = (refl, (refl, (tt, (refl, (tt, (refl, (tt, (tt, tt))))))))

fresh_once_example : fresh_answers "n" (run events start).answers ≤ 1
unfolding get
fresh_once_example = fresh_once [] events "n" events-AllNew

claim_alone_example :
    (run (claimed "1" "n" ∷ read "1" ∷ written "1" ∷ []) start).answers ≡ ("n", fresh) ∷ []
unfolding get
claim_alone_example = claim_alone "1" "n" start refl refl

abbrev memory : JsMap ℕ
memory = ("n", 10) ∷ ("m", 20) ∷ []

memory-IsUnique : IsUnique memory
unfolding get
memory-IsUnique = (refl, (refl, tt))

claim_in_memory_lem_example :
    let (after, result) = claim_in_memory "n" 10 5 memory in
    (result ≡ (if is_held 10 (get "n" memory) then replayed else fresh))
    × IsUnique after
    × ((j : String)
        → get j after ≡ (
            if ("n" === j) && not (is_held 10 (get "n" memory))
            then some 15
            else if is_held 10 (get j memory)
            then get j memory
            else none))
claim_in_memory_lem_example = claim_in_memory_lem "n" 10 5 memory memory-IsUnique

abbrev env : Env
env = record {
  route_assert_verify_replay_enabled = a_text " Yes ";
  test_in_memory_kv = no_value;
  route_assert_verify_replay_ttl_sec = a_number 5;
  has_inbox_kv = true;
}

enabled : parse_boolean_like env.route_assert_verify_replay_enabled ≡ true
unfolding parse_boolean_like trim trim_start trim_end to_lower
enabled = refl
