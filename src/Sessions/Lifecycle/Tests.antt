-- ===== src/Sessions/Lifecycle/Tests.antt =====
-- A session's life by example: created, rotated, its successor revoked.
use blackcat_darkmesh_gatewa.Sessions.Lifecycle.{
  SessionLifecycleStatus, active, SessionLifecycleSession, SessionLifecycleCreateInput, Result,
  success, failure, Store, refusal, find, read_session, create_session, rotate_session,
  revoke_session, successor_of, rotated_into, revoked_at_time, new_session, session_revoked,
  session_rotated, list_by_subject,
}
use blackcat_darkmesh_gatewa.Text.{trim, trim_start, trim_end}
use blackcat_darkmesh_gatewa.Base.{
  ℕ, ◌+◌, ◌≡◌, refl, ap, String, none, some, List, [], ◌∷◌, eq_iff, arith,
}
use blackcat_darkmesh_gatewa.JsMap.{get, set}
use blackcat_darkmesh_gatewa.Sessions.Lifecycle.Stores.{IsKeyed}
use blackcat_darkmesh_gatewa.Sessions.Lifecycle.Reads.{rotate_session_lem}
use blackcat_darkmesh_gatewa.Sessions.Lifecycle.Calls.{
  Call, created, rotated_to, call, after, AllFresh, revoked_for_good, rotated_for_good,
}

abbrev input : SessionLifecycleCreateInput ℕ
input = record {
  subject = " ann ";
  ttl_ms = some 50;
  claims = some (("role", 3) ∷ []);
  context = none;
}

abbrev first_session : SessionLifecycleSession ℕ
first_session = new_session input "ann" 50 "a" 10

abbrev store : Store ℕ
store = ("a", first_session) ∷ []

trimmed_a : trim "a" ≡ "a"
unfolding trim trim_start trim_end
trimmed_a = refl

trimmed_b : trim "b" ≡ "b"
unfolding trim trim_start trim_end
trimmed_b = refl

made : create_session 100 input "a" 10 [] ≡ (store, success first_session tt)
unfolding create_session trim trim_start trim_end set
made = refl

store-IsKeyed : IsKeyed store
unfolding get
store-IsKeyed k c held = ground (arith, eq_iff "a" k)

rotation : rotate_session " a" "b" 20 store ≡ (
  ("a", rotated_into first_session "b" 20) ∷ ("b", successor_of first_session "b" 20) ∷ [],
  success (successor_of first_session "b" 20) "a",
)
unfolding rotate_session find refusal trim trim_start trim_end set get
rotation = refl

rotate_session_lem_example :
    let after = (rotate_session " a" "b" 20 store).0 in
    ("a" ≡ trim " a")
    × (read_session " a" 30 after ≡ failure session_rotated)
    × (read_session "b" 30 after ≡ success (successor_of first_session "b" 20) tt)
    × ((c : SessionLifecycleSession ℕ) × (get "a" store ≡ some c)
        × (c.subject ≡ "ann")
        × (70 ≡ 20 + c.ttl_ms)
        × ((successor_of first_session "b" 20).rotated_from ≡ some "a"))
unfolding get
rotate_session_lem_example =
    rotate_session_lem " a" "b" 20 30 store (successor_of first_session "b" 20) "a" store-IsKeyed
      refl trimmed_b refl (ap (λ (r : Store ℕ × Result ℕ String). r.1) rotation)

revocation : revoke_session "a" 20 store ≡ (
  ("a", revoked_at_time first_session 20) ∷ [],
  success (revoked_at_time first_session 20) active,
)
unfolding revoke_session find refusal trim trim_start trim_end set get
revocation = refl

abbrev later_calls : List (Call ℕ)
later_calls = rotated_to "a" "c" 40 ∷ created input "b" 30 ∷ []

later_calls-AllFresh : AllFresh 100 (("a", revoked_at_time first_session 20) ∷ []) later_calls
unfolding AllFresh after call create_session rotate_session find refusal trim trim_start trim_end
    set get
later_calls-AllFresh = (refl, (refl, tt))

rotated_calls-AllFresh :
    AllFresh 100 (rotate_session " a" "b" 20 store).0 (rotated_to "b" "c" 40 ∷ [])
unfolding AllFresh after call rotate_session find refusal trim trim_start trim_end set get
rotated_calls-AllFresh = (refl, tt)

revoked_for_good_example :
    read_session "a" 45 (after 100 (revoke_session "a" 20 store).0 later_calls)
    ≡ failure session_revoked
revoked_for_good_example =
    revoked_for_good 100 store "a" 20 45 (revoked_at_time first_session 20) active later_calls
      store-IsKeyed (ap (λ (r : Store ℕ × Result ℕ SessionLifecycleStatus). r.1) revocation)
      (rw revocation later_calls-AllFresh)

rotated_for_good_example :
    read_session " a" 45
      (after 100 (rotate_session " a" "b" 20 store).0 (rotated_to "b" "c" 40 ∷ []))
    ≡ failure session_rotated
unfolding get
rotated_for_good_example =
    rotated_for_good 100 store " a" "b" 20 45 (successor_of first_session "b" 20) "a"
      (rotated_to "b" "c" 40 ∷ []) store-IsKeyed refl
      (ap (λ (r : Store ℕ × Result ℕ String). r.1) rotation) rotated_calls-AllFresh

listed : list_by_subject " ann" store ≡ success first_session tt ∷ []
unfolding list_by_subject trim trim_start trim_end
listed = refl
