-- ===== src/RouteAssertions/Replay/Steps.antt =====
-- The steps of a claim, for what holds between them,
-- workers/secrets-worker/src/routeAssertionReplay.ts.
use blackcat_darkmesh_gatewa.RouteAssertions.Replay.{
  fresh, replayed, refused, Task, reading, writing, key_of, World, Event, claimed, read,
  read_failed, written, write_failed, claim, exists_at, after_read, after_write, after_read_failure,
  after_write_failure, step,
}
use blackcat_darkmesh_gatewa.Base.{
  ◌≡◌, refl, inl, inr, String, Bool, true, false, Option, none, some, eq_iff, eq_refl, arith,
  Bool-cases,
}
use blackcat_darkmesh_gatewa.JsMap.{JsMap, get, set, has}
use blackcat_darkmesh_gatewa.JsMap.Laws.{get-set}
use blackcat_darkmesh_gatewa.RouteAssertions.Replay.Sound.{
  fresh_answers, IsNew, IsSound, not_fresh, stored-others, finish-IsSound, stored-counts,
}

module _ (start : JsMap String) where
  claim-IsSound :
      (id key : String) (w : World)
      → IsSound start w
      → get id w.tasks ≡ none
      → IsSound start (claim id key w)
  unfolding claim fresh_answers
  claim-IsSound id key w s new = elim (Bool-cases (has key w.local_claim_locks)) [
    | inl locked ↦
        rw (locked, claim)
          (record {
            locked = s.locked;
            alone = s.alone;
            counted = λ k. ground (arith, s.counted k);
            unwritten = s.unwritten;
          })
    | inr free ↦
        rw (free, claim)
          (record {
            locked = λ i t held. ground (
              arith,
              get-set id i (reading key) w.tasks,
              s.locked i t,
              get-set key (key_of t) true w.local_claim_locks,
              eq_iff id i,
              eq_iff key (key_of t),
              eq_refl key,
            );
            alone = λ i j t u held_i held_j same. ground (
              arith,
              get-set id i (reading key) w.tasks,
              get-set id j (reading key) w.tasks,
              s.locked i t,
              s.locked j u,
              s.alone i j t u,
              eq_iff id i,
              eq_iff id j,
            );
            counted = s.counted;
            unwritten =
                λ i k held. ground (arith, get-set id i (reading key) w.tasks, s.unwritten i k);
          })
  ]

  after_read-IsSound :
      (id : String) (w : World) (o : Option Task)
      → get id w.tasks ≡ o
      → IsSound start w
      → IsSound start (after_read o id w)
  unfolding after_read
  after_read-IsSound id w none held s = s
  after_read-IsSound id w (some (writing key)) held s = s
  after_read-IsSound id w (some (reading key)) held s = elim (Bool-cases (exists_at key w.kv)) [
    | inl there ↦
        rw (there, after_read)
          (finish-IsSound start id (reading key) replayed w w.kv s held
            (λ k. ground (arith, not_fresh key k replayed w.answers, s.counted k))
            (λ k other. refl))
    | inr free ↦
        rw (free, after_read)
          (record {
            locked = λ i u here. ground (
              arith,
              get-set id i (writing key) w.tasks,
              s.locked i u,
              s.locked id (reading key),
              eq_iff id i,
            );
            alone = λ i j u v held_i held_j same. ground (
              arith,
              get-set id i (writing key) w.tasks,
              get-set id j (writing key) w.tasks,
              s.alone i j u v,
              s.alone id j (reading key) v,
              s.alone i id u (reading key),
              eq_iff id i,
              eq_iff id j,
            );
            counted = s.counted;
            unwritten = λ i k here.
                ground (arith, get-set id i (writing key) w.tasks, s.unwritten i k, free);
          })
  ]

  after_write-IsSound :
      (id : String) (w : World) (o : Option Task)
      → get id w.tasks ≡ o
      → IsSound start w
      → IsSound start (after_write o id w)
  unfolding after_write
  after_write-IsSound id w none held s = s
  after_write-IsSound id w (some (reading key)) held s = s
  after_write-IsSound id w (some (writing key)) held s =
      finish-IsSound start id (writing key) fresh w (set key "1" w.kv) s held
        (λ k. stored-counts start id key w k fresh s held) (λ k other. stored-others key w k other)

  after_read_failure-IsSound :
      (id : String) (w : World) (o : Option Task)
      → get id w.tasks ≡ o
      → IsSound start w
      → IsSound start (after_read_failure o id w)
  unfolding after_read_failure
  after_read_failure-IsSound id w none held s = s
  after_read_failure-IsSound id w (some (writing key)) held s = s
  after_read_failure-IsSound id w (some (reading key)) held s =
      finish-IsSound start id (reading key) (refused "replay_store_error") w w.kv s held
        (λ k. ground (arith, not_fresh key k (refused "replay_store_error") w.answers, s.counted k))
        (λ k other. refl)

  after_write_failure-IsSound :
      (id : String) (stored : Bool) (w : World) (o : Option Task)
      → get id w.tasks ≡ o
      → IsSound start w
      → IsSound start (after_write_failure o id stored w)
  unfolding after_write_failure
  after_write_failure-IsSound id stored w none held s = s
  after_write_failure-IsSound id stored w (some (reading key)) held s = s
  after_write_failure-IsSound id true w (some (writing key)) held s =
      finish-IsSound start id (writing key) (refused "replay_store_error") w (set key "1" w.kv) s
        held (λ k. stored-counts start id key w k (refused "replay_store_error") s held)
        (λ k other. stored-others key w k other)
  after_write_failure-IsSound id false w (some (writing key)) held s =
      finish-IsSound start id (writing key) (refused "replay_store_error") w w.kv s held
        (λ k. ground (arith, not_fresh key k (refused "replay_store_error") w.answers, s.counted k))
        (λ k other. refl)

  pub step-IsSound :
      (e : Event) (w : World) → IsSound start w → IsNew e w → IsSound start (step e w)
  unfolding step
  step-IsSound (claimed id key) w s new = claim-IsSound id key w s new
  step-IsSound (read id) w s new = after_read-IsSound id w (get id w.tasks) refl s
  step-IsSound (read_failed id) w s new = after_read_failure-IsSound id w (get id w.tasks) refl s
  step-IsSound (written id) w s new = after_write-IsSound id w (get id w.tasks) refl s
  step-IsSound (write_failed id stored) w s new =
      after_write_failure-IsSound id stored w (get id w.tasks) refl s
