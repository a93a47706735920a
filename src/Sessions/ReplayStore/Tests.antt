-- ===== src/Sessions/ReplayStore/Tests.antt =====
-- Runs of src/runtime/sessions/replayStore.ts on small inputs.
use blackcat_darkmesh_gatewa.Base.{◌≡◌, refl, true, none, some, List, [], ◌∷◌, arith, Any}
use blackcat_darkmesh_gatewa.JsMap.{get, set, delete, size, delete_where, delete_oldest_while}
use blackcat_darkmesh_gatewa.Sessions.ReplayStore.{
  ReplayStoreOptions, init, mark_and_check, mark_prev, mark_new, maybe_sweep, sweep, sweep_expired,
  prune_to_capacity,
}
use blackcat_darkmesh_gatewa.Sessions.ReplayStore.Steps.{IsValid}
use blackcat_darkmesh_gatewa.Sessions.ReplayStore.Marks.{
  mark_and_check-IsValid, mark_and_check_long,
}
use blackcat_darkmesh_gatewa.Sessions.ReplayStore.Histories.{
  Call, after, init-IsValid, RunsAt, replay_was_marked, replay_is_found,
}

abbrev small : ReplayStoreOptions
small = record { ttl_ms = 100; max_keys = 2; sweep_interval_ms = 10; key_max_bytes = 4 }

abbrev one_call : List Call
one_call = record { key = "a"; at = 5 } ∷ []

-- The oldest key makes room for the third, and is forgotten.
evicted :
    let s =
      after (init small) (record { key = "c"; at = 7 } ∷ record { key = "b"; at = 6 } ∷ one_call) in
    (get "a" s.seen ≡ none) × (get "b" s.seen ≡ some 106) × (size s.seen ≡ 2)
unfolding after mark_and_check mark_prev mark_new maybe_sweep sweep sweep_expired prune_to_capacity
    get set delete delete_where delete_oldest_while
evicted = (refl, refl, refl)

seen_again : (mark_and_check (after (init small) one_call) "a" 9).1.replay ≡ true
unfolding after mark_and_check mark_prev mark_new maybe_sweep sweep sweep_expired prune_to_capacity
    get set delete delete_where delete_oldest_while
seen_again = refl

mark_and_check-IsValid_example : IsValid (mark_and_check (init small) "a" 5).0
mark_and_check-IsValid_example =
    mark_and_check-IsValid (init small) "a" 5 (init-IsValid small (omega arith))

mark_and_check_long_example :
    ((mark_and_check (init small) "abcde" 5).0 ≡ init small)
    × ((mark_and_check (init small) "abcde" 5).1.replay ≡ true)
    × ((mark_and_check (init small) "abcde" 5).1.rejected ≡ true)
mark_and_check_long_example = mark_and_check_long (init small) "abcde" 5 (omega arith)

replay_was_marked_example : Any (RunsAt small "a" 9) one_call
replay_was_marked_example =
    replay_was_marked small one_call "a" 9 (omega arith) (omega arith) seen_again

size_one : size (mark_and_check (init small) "a" 5).0.seen ≡ 1
unfolding mark_and_check mark_prev mark_new maybe_sweep sweep sweep_expired prune_to_capacity get
    set delete delete_where delete_oldest_while
size_one = refl

abbrev later_call : List Call
later_call = record { key = "b"; at = 50 } ∷ []

replay_is_found_example :
    (mark_and_check (after (mark_and_check (init small) "a" 5).0 later_call) "a" 60).1.replay ≡ true
replay_is_found_example =
    replay_is_found (init small) "a" 5 60 later_call (init-IsValid small (omega arith))
      (omega arith) (omega (arith, size_one)) (omega arith) (omega arith)
