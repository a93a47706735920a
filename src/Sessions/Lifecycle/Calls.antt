-- ===== src/Sessions/Lifecycle/Calls.antt =====
-- Sequences of calls of the service of src/runtime/sessions/lifecycle.ts, with the latest first.
use blackcat_darkmesh_gatewa.Sessions.Lifecycle.{
  SessionLifecycleStatus, SessionLifecycleSession, SessionLifecycleCreateInput, success, failure,
  Store, find, read_session, put_session, create_session, rotate_session, revoke_session,
  successor_of, rotated_into, revoked_at_time, new_session, session_revoked, session_rotated,
}
use blackcat_darkmesh_gatewa.Text.{trim}
use blackcat_darkmesh_gatewa.Base.{
  ℕ, ◌≡◌, inl, inr, String, false, none, some, List, [], ◌∷◌, eq_iff, arith,
}
use blackcat_darkmesh_gatewa.JsMap.{get}
use blackcat_darkmesh_gatewa.JsMap.Laws.{get-set}
use blackcat_darkmesh_gatewa.Sessions.Lifecycle.Stores.{
  is_active, IsKeyed, find_success, Result-cases, put_session-IsKeyed, rotate_found, rotate_refused,
  revoke_found, revoke_refused, create-cases,
}
use blackcat_darkmesh_gatewa.Sessions.Lifecycle.Reads.{revoked_held, rotated_held, read_ended}

module _ (V : Type 0) where
  -- A call with what the clock and the identifier factory answer.
  pub data Call : Type 0 where
    created : SessionLifecycleCreateInput V → String → ℕ → Call
    rotated_to : String → String → ℕ → Call
    revoked_by : String → ℕ → Call

module _ {V : Type 0} (default_ttl : ℕ) where
  unfoldable pub call : Call V → Store V → Store V
  call (created input id now) store = (create_session default_ttl input id now store).0
  call (rotated_to session_id id now) store = (rotate_session session_id id now store).0
  call (revoked_by session_id now) store = (revoke_session session_id now store).0

  unfoldable pub after : Store V → List (Call V) → Store V
  after store [] = store
  after store (x ∷ earlier) = call x (after store earlier)

  -- The identifier that the factory makes is not in use.
  abbrev pub IsFresh : Call V → Store V → Type 0
  IsFresh (created input id now) store = get id store ≡ none
  IsFresh (rotated_to session_id id now) store = get id store ≡ none
  IsFresh (revoked_by session_id now) store = Unit

  unfoldable pub AllFresh : Store V → List (Call V) → Type 0
  AllFresh store [] = Unit
  AllFresh store (x ∷ earlier) = IsFresh x (after store earlier) × AllFresh store earlier

  call-IsKeyed : (x : Call V) (store : Store V) → IsKeyed store → IsKeyed (call x store)
  unfolding call
  call-IsKeyed (created input id now) store keyed =
      elim (create-cases default_ttl input id now store) [
        | inl (ttl_ms, e) ↦
            rw (e, call)
              (put_session-IsKeyed (new_session input (trim input.subject) ttl_ms id now) store
                keyed)
        | inr (code, e) ↦ rw (e, call) keyed
      ]
  call-IsKeyed (rotated_to session_id id now) store keyed =
      elim (Result-cases (find session_id now store)) [
        | inl (c, f) ↦
            rw (rotate_found session_id id now store c f, call)
              (put_session-IsKeyed (successor_of c id now)
                (put_session (rotated_into c id now) store)
                (put_session-IsKeyed (rotated_into c id now) store keyed))
        | inr (code, f) ↦ rw (rotate_refused session_id id now store code f, call) keyed
      ]
  call-IsKeyed (revoked_by session_id now) store keyed =
      elim (Result-cases (find session_id now store)) [
        | inl (c, f) ↦
            rw (revoke_found session_id now store c f, call)
              (put_session-IsKeyed (revoked_at_time c now) store keyed)
        | inr (code, f) ↦ rw (revoke_refused session_id now store code f, call) keyed
      ]

  pub after-IsKeyed :
      (store : Store V) (calls : List (Call V)) → IsKeyed store → IsKeyed (after store calls)
  unfolding after
  after-IsKeyed store [] keyed = keyed
  after-IsKeyed store (x ∷ earlier) keyed =
      call-IsKeyed x (after store earlier) (after-IsKeyed store earlier keyed)

  -- A session that is not active is left as it is by a call.
  call-ended :
      (x : Call V) (store : Store V) (k : String) (c : SessionLifecycleSession V)
      → IsKeyed store
      → IsFresh x store
      → get k store ≡ some c
      → is_active c.status ≡ false
      → get k (call x store) ≡ some c
  unfolding call
  call-ended (created input id now) store k c keyed fresh held ended =
      elim (create-cases default_ttl input id now store) [
        | inl (ttl_ms, e) ↦
            rw (e, call)
              (ground (
                arith,
                held,
                fresh,
                get-set id k (new_session input (trim input.subject) ttl_ms id now) store,
                eq_iff id k,
              ))
        | inr (code, e) ↦ rw (e, call) held
      ]
  call-ended (rotated_to session_id id now) store k c keyed fresh held ended =
      elim (Result-cases (find session_id now store)) [
        | inl (d, f) ↦
            rw (rotate_found session_id id now store d f, call)
              (ground (
                arith,
                held,
                fresh,
                ended,
                find_success session_id now store d f,
                keyed (trim session_id) d,
                eq_iff id k,
                eq_iff d.id k,
                get-set id k (successor_of d id now) (put_session (rotated_into d id now) store),
                get-set d.id k (rotated_into d id now) store,
              ))
        | inr (code, f) ↦ rw (rotate_refused session_id id now store code f, call) held
      ]
  call-ended (revoked_by session_id now) store k c keyed fresh held ended =
      elim (Result-cases (find session_id now store)) [
        | inl (d, f) ↦
            rw (revoke_found session_id now store d f, call)
              (ground (
                arith,
                held,
                ended,
                find_success session_id now store d f,
                keyed (trim session_id) d,
                eq_iff d.id k,
                get-set d.id k (revoked_at_time d now) store,
              ))
        | inr (code, f) ↦ rw (revoke_refused session_id now store code f, call) held
      ]

  pub after-ended :
      (store : Store V) (calls : List (Call V)) (k : String) (c : SessionLifecycleSession V)
      → IsKeyed store
      → AllFresh store calls
      → get k store ≡ some c
      → is_active c.status ≡ false
      → get k (after store calls) ≡ some c
  unfolding after AllFresh
  after-ended store [] k c keyed fresh held ended = held
  after-ended store (x ∷ earlier) k c keyed (fresh, all_fresh) held ended =
      call-ended x (after store earlier) k c (after-IsKeyed store earlier keyed) fresh
        (after-ended store earlier k c keyed all_fresh held ended) ended

  -- Revoked for good. On a store that keeps each session under its identifier, once revoke succeeds for an
  -- identifier, and whatever calls follow, if the identifiers made for new sessions are not in use, a read of it
  -- at any time is refused as revoked.
  pub revoked_for_good :
      (store : Store V) (session_id : String) (now later : ℕ) (c : SessionLifecycleSession V)
      (before : SessionLifecycleStatus) (calls : List (Call V))
      → IsKeyed store
      → (revoke_session session_id now store).1 ≡ success c before
      → AllFresh (revoke_session session_id now store).0 calls
      → read_session session_id later (after (revoke_session session_id now store).0 calls)
        ≡ failure session_revoked
  unfolding call
  revoked_for_good store session_id now later c before calls keyed made fresh =
      let s = (revoke_session session_id now store).0 in
      let (held, ended, named) = revoked_held session_id now store c before keyed made in
      let kept =
        after-ended s calls (trim session_id) c
          (call-IsKeyed (revoked_by session_id now) store keyed) fresh held
          (ground (arith, ended)) in
      (read_ended session_id later (after s calls) c kept named).0 ended

  -- Rotated for good. On such a store, once rotate succeeds for an identifier with a new one that is not in use,
  -- and whatever calls follow under the same condition, a read of the old one at any time is refused as rotated.
  pub rotated_for_good :
      (store : Store V) (session_id id : String) (now later : ℕ) (next : SessionLifecycleSession V)
      (previous : String) (calls : List (Call V))
      → IsKeyed store
      → get id store ≡ none
      → (rotate_session session_id id now store).1 ≡ success next previous
      → AllFresh (rotate_session session_id id now store).0 calls
      → read_session session_id later (after (rotate_session session_id id now store).0 calls)
        ≡ failure session_rotated
  unfolding call
  rotated_for_good store session_id id now later next previous calls keyed new made fresh =
      let s = (rotate_session session_id id now store).0 in
      let (c, held, ended, named) =
        rotated_held session_id id now store next previous keyed new made in
      let kept =
        after-ended s calls (trim session_id) c
          (call-IsKeyed (rotated_to session_id id now) store keyed) fresh held
          (ground (arith, ended)) in
      (read_ended session_id later (after s calls) c kept named).1 ended
