-- ===== src/RouteAssertions/Replay/Sound.antt =====
-- What holds of the locks, the store, the waiting claims and the answers between the steps of claims,
-- for the end of a claim; workers/secrets-worker/src/routeAssertionReplay.ts.
use blackcat_darkmesh_gatewa.RouteAssertions.Replay.{
  ReplayClaimResult, fresh, Task, writing, key_of, World, Event, claimed, finish, exists_at,
}
use blackcat_darkmesh_gatewa.Base.{
  ℕ, ◌+◌, ◌≤◌, ◌≡◌, String, Bool, true, false, ◌&&◌, none, some, List, [], ◌∷◌, ◌===◌, eq_iff,
  eq_refl, arith, if◌then◌else◌,
}
use blackcat_darkmesh_gatewa.JsMap.{JsMap, get, set, has}
use blackcat_darkmesh_gatewa.JsMap.Laws.{get-set, get-delete}

abbrev pub is_fresh : ReplayClaimResult → Bool
is_fresh fresh = true
is_fresh _ = false

-- How many claims of the key were answered as new.
unfoldable pub fresh_answers : String → List (String × ReplayClaimResult) → ℕ
fresh_answers k [] = 0
fresh_answers k ((j, r) ∷ answers) =
    let rest = fresh_answers k answers in if (j === k) && is_fresh r then rest + 1 else rest

-- A new claim has a name of its own.
abbrev pub IsNew : Event → World → Type 0
IsNew (claimed id key) w = get id w.tasks ≡ none
IsNew _ w = Unit

-- An answer other than that the nonce is new leaves the counts.
pub not_fresh :
    (key k : String) (result : ReplayClaimResult) (answers : List (String × ReplayClaimResult))
    → is_fresh result ≡ false
    → fresh_answers k ((key, result) ∷ answers) ≡ fresh_answers k answers
unfolding fresh_answers
not_fresh key k result answers no_fresh = ground arith

pub stored-others :
    (key : String) (w : World) (k : String)
    → (key === k) ≡ false
    → exists_at k (set key "1" w.kv) ≡ exists_at k w.kv
stored-others key w k other = ground (arith, get-set key k "1" w.kv)

module _ (start : JsMap String) where
  -- A key that the store held at the start has been used.
  abbrev pub at_start : String → ℕ
  at_start k = if exists_at k start then 1 else 0

  pub record IsSound (w : World) : Type 0 where
    pub locked :
        (i : String) (t : Task) → get i w.tasks ≡ some t → has (key_of t) w.local_claim_locks ≡ true
    pub alone :
        (i j : String) (t u : Task)
        → get i w.tasks ≡ some t
        → get j w.tasks ≡ some u
        → key_of t ≡ key_of u
        → i ≡ j
    pub counted :
        (k : String) → fresh_answers k w.answers + at_start k ≤ (if exists_at k w.kv then 1 else 0)
    pub unwritten : (i k : String) → get i w.tasks ≡ some (writing k) → exists_at k w.kv ≡ false

  -- The end of a claim, whatever it answers, if the store is as the answer says.
  pub finish-IsSound :
      (id : String) (t : Task) (result : ReplayClaimResult) (w : World) (kv : JsMap String)
      → IsSound w
      → get id w.tasks ≡ some t
      → ((k : String)
          → fresh_answers k ((key_of t, result) ∷ w.answers) + at_start k
            ≤ (if exists_at k kv then 1 else 0))
      → ((k : String) → (key_of t === k) ≡ false → exists_at k kv ≡ exists_at k w.kv)
      → IsSound (finish id (key_of t) result (record w { kv = kv }))
  finish-IsSound id t result w kv s held count same = record {
    locked = λ i u here. ground (
      arith,
      get-delete id i w.tasks,
      get-delete (key_of t) (key_of u) w.local_claim_locks,
      s.locked i u,
      s.alone id i t u,
      eq_iff id i,
      eq_iff (key_of t) (key_of u),
      eq_refl id,
    );
    alone = λ i j u v held_i held_j eq.
        ground (arith, get-delete id i w.tasks, get-delete id j w.tasks, s.alone i j u v);
    counted = count;
    unwritten = λ i k here. ground (
      arith,
      get-delete id i w.tasks,
      s.alone id i t (writing k),
      s.unwritten i k,
      same k,
      eq_iff id i,
      eq_iff (key_of t) k,
      eq_refl id,
    );
  }

  -- The store after a `put`, and the answers that it leaves room for.
  pub stored-counts :
      (id key : String) (w : World) (k : String) (result : ReplayClaimResult)
      → IsSound w
      → get id w.tasks ≡ some (writing key)
      → fresh_answers k ((key, result) ∷ w.answers) + at_start k
        ≤ (if exists_at k (set key "1" w.kv) then 1 else 0)
  unfolding fresh_answers
  stored-counts id key w k result s held =
      ground (arith, get-set key k "1" w.kv, s.counted k, s.unwritten id key, eq_iff key k)
