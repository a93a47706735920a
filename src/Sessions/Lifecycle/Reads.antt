-- ===== src/Sessions/Lifecycle/Reads.antt =====
-- What can be read after one operation of src/runtime/sessions/lifecycle.ts.
use blackcat_darkmesh_gatewa.Sessions.Lifecycle.{
  SessionLifecycleStatus, revoked, rotated, session_revoked, session_rotated, session_expired,
  SessionLifecycleSession, SessionLifecycleCreateInput, Result, success, failure, Store, refusal,
  find, read_session, put_session, create_session, rotate_session, revoke_session, successor_of,
  rotated_into, revoked_at_time, new_session,
}
use blackcat_darkmesh_gatewa.Text.{trim}
use blackcat_darkmesh_gatewa.Base.{
  ℕ, ◌+◌, ◌<◌, ◌≡◌, refl, sym, ap, ◌∙◌, inl, inr, String, false, none, some, ◌===◌, eq_iff, eq_refl,
  arith, leb, if◌then◌else◌,
}
use blackcat_darkmesh_gatewa.JsMap.{get}
use blackcat_darkmesh_gatewa.JsMap.Laws.{get-set}
use blackcat_darkmesh_gatewa.Sessions.Lifecycle.Stores.{
  IsKeyed, find_success, find_stored, find_put, Result-cases, rotate_found, rotate_refused,
  revoke_found, revoke_refused, create-cases,
}

module _ {V : Type 0} where
  -- What is created can be read until it expires, if the identifier made for it is a text without outer
  -- white space that is not empty.
  pub create_then_read :
      (default_ttl : ℕ) (input : SessionLifecycleCreateInput V) (id : String) (now later : ℕ)
      (store : Store V) (c : SessionLifecycleSession V)
      → trim id ≡ id
      → (id === "") ≡ false
      → (create_session default_ttl input id now store).1 ≡ success c tt
      → later < c.expires_at
      → read_session id later (create_session default_ttl input id now store).0 ≡ success c tt
  create_then_read default_ttl input id now later store c trimmed named made before =
      elim (create-cases default_ttl input id now store) [
        | inl (ttl_ms, e) ↦
            let d = new_session input (trim input.subject) ttl_ms id now in
            let same : d ≡ c = ground (arith, made, e) in
            ap (λ (r : Store V × Result V Unit). read_session id later r.0) e
            ∙ find_put d later store trimmed named refl (ground (arith, same))
            ∙ ap (λ (x : SessionLifecycleSession V). success x tt) same
        | inr (code, e) ↦ ground (arith, made, e)
      ]

  -- A rotation. If it succeeds on a store that keeps sessions under their identifiers, with a new
  -- identifier that is not in use, a text without outer white space and not empty, then: it was the session that
  -- the identifier names, the successor has its subject and its full time to live, the successor can
  -- be read until it expires, and the old one is refused as rotated ever after.
  pub rotate_session_lem :
      (session_id id : String) (now later : ℕ) (store : Store V) (next : SessionLifecycleSession V)
      (previous : String)
      → IsKeyed store
      → get id store ≡ none
      → trim id ≡ id
      → (id === "") ≡ false
      → (rotate_session session_id id now store).1 ≡ success next previous
      → let after = (rotate_session session_id id now store).0 in
        (previous ≡ trim session_id)
        × (read_session session_id later after ≡ failure session_rotated)
        × (read_session id later after
            ≡ (if leb next.expires_at later then failure session_expired else success next tt))
        × ((c : SessionLifecycleSession V) × (get previous store ≡ some c)
            × (c.subject ≡ next.subject)
            × (next.expires_at ≡ now + c.ttl_ms)
            × (next.rotated_from ≡ some previous))
  unfolding refusal
  rotate_session_lem session_id id now later store next previous keyed fresh trimmed named made =
      elim (Result-cases (find session_id now store)) [
        | inl (c, f) ↦
            let (held, runs, ahead, given) = find_success session_id now store c f in
            let same : c.id ≡ trim session_id = keyed (trim session_id) c held in
            let e = rotate_found session_id id now store c f in
            let moved = put_session (rotated_into c id now) store in
            let all = put_session (successor_of c id now) moved in
            let distinct : (id === trim session_id) ≡ false =
              ground (arith, eq_iff id (trim session_id)) in
            let old : get (trim session_id) all ≡ some (rotated_into c id now) = ground (
              arith,
              get-set id (trim session_id) (successor_of c id now) moved,
              get-set c.id (trim session_id) (rotated_into c id now) store,
              same,
              eq_refl (trim session_id),
            ) in
            let new : get (trim id) all ≡ some (successor_of c id now) =
              ground
                (arith, get-set id (trim id) (successor_of c id now) moved, trimmed, eq_refl id) in
            let one : successor_of c id now ≡ next = ground (arith, made, e) in
            (
              ground (arith, made, e, same),
              ap (λ (r : Store V × Result V String). read_session session_id later r.0) e
                  ∙ find_stored session_id later all (rotated_into c id now) old given,
              ap (λ (r : Store V × Result V String). read_session id later r.0) e
                  ∙ ground (
                    arith,
                    find_stored id later all (successor_of c id now) new (rw trimmed named),
                  )
                  ∙ ap
                      (λ (x : SessionLifecycleSession V).
                        if leb x.expires_at later then failure session_expired else success x tt)
                      one,
              (
                c,
                ground (arith, made, e, held, same),
                ap (λ (x : SessionLifecycleSession V). x.subject) one,
                ap (λ (x : SessionLifecycleSession V). x.expires_at) (sym one),
                ap (λ (x : SessionLifecycleSession V). x.rotated_from) (sym one)
                    ∙ ap some (ground (arith, made, e)),
              ),
            )
        | inr (code, f) ↦ ground (arith, made, rotate_refused session_id id now store code f)
      ]

  -- What a successful revocation stores, and where.
  pub revoked_held :
      (session_id : String) (now : ℕ) (store : Store V) (c : SessionLifecycleSession V)
      (before : SessionLifecycleStatus)
      → IsKeyed store
      → (revoke_session session_id now store).1 ≡ success c before
      → (get (trim session_id) (revoke_session session_id now store).0 ≡ some c)
        × (c.status ≡ revoked)
        × ((trim session_id === "") ≡ false)
  revoked_held session_id now store c before keyed made =
      elim (Result-cases (find session_id now store)) [
        | inl (d, f) ↦
            let e = revoke_found session_id now store d f in
            let here = find_success session_id now store d f in
            let one : revoked_at_time d now ≡ c = ground (arith, made, e) in
            rw (e, ← one)
              (
                ground (
                  arith,
                  get-set d.id (trim session_id) (revoked_at_time d now) store,
                  keyed (trim session_id) d here.0,
                  eq_refl (trim session_id),
                ),
                refl,
                here.3,
              )
        | inr (code, f) ↦ ground (arith, made, revoke_refused session_id now store code f)
      ]

  -- What a successful rotation leaves under the old identifier.
  pub rotated_held :
      (session_id id : String) (now : ℕ) (store : Store V) (next : SessionLifecycleSession V)
      (previous : String)
      → IsKeyed store
      → get id store ≡ none
      → (rotate_session session_id id now store).1 ≡ success next previous
      → (c : SessionLifecycleSession V) × (get
            (trim session_id)
            (rotate_session session_id id now store).0
          ≡ some c)
        × (c.status ≡ rotated)
        × ((trim session_id === "") ≡ false)
  rotated_held session_id id now store next previous keyed fresh made =
      elim (Result-cases (find session_id now store)) [
        | inl (d, f) ↦
            let e = rotate_found session_id id now store d f in
            let here = find_success session_id now store d f in
            let moved = put_session (rotated_into d id now) store in
            rw e (
              rotated_into d id now,
              ground (
                arith,
                here,
                fresh,
                eq_iff id (trim session_id),
                keyed (trim session_id) d here.0,
                get-set id (trim session_id) (successor_of d id now) moved,
                get-set d.id (trim session_id) (rotated_into d id now) store,
                eq_refl (trim session_id),
              ),
              refl,
              here.3,
            )
        | inr (code, f) ↦ ground (arith, made, rotate_refused session_id id now store code f)
      ]

  pub read_ended :
      (session_id : String) (later : ℕ) (store : Store V) (c : SessionLifecycleSession V)
      → get (trim session_id) store ≡ some c
      → (trim session_id === "") ≡ false
      → ((c.status ≡ revoked) → read_session session_id later store ≡ failure session_revoked)
        × ((c.status ≡ rotated) → read_session session_id later store ≡ failure session_rotated)
  unfolding refusal
  read_ended session_id later store c held named = (
    (λ ended. ground (arith, find_stored session_id later store c held named)),
    (λ ended. ground (arith, find_stored session_id later store c held named)),
  )
