-- ===== src/DnsTxt/Sound.antt =====
-- The pairs of a TXT record and their validation, workers/async-worker/src/dnsTxtParser.ts.
use blackcat_darkmesh_gatewa.DnsTxt.{
  ValidationResult, ok, fail, DmTxtErrorCode, DmTxtEnvelope, is_txt_key, pair_of, add_pair,
  add_segment, parse_segments, parse_pairs, ParsedTxtPairs, is_arweave_id, is_number,
  validate_dm_txt_envelope,
}
use blackcat_darkmesh_gatewa.Text.{trim, cut, split, leading_digits}
use blackcat_darkmesh_gatewa.Base.{
  ℕ, ◌+◌, ◌≤◌, ◌≡◌, refl, sym, ap, ◌∙◌, subst, ◌⊎◌, inl, inr, String, true, false, none, some, List,
  [], ◌∷◌, ◌===◌, eq_iff, arith, if◌then◌else◌, Bool-cases, Option-cases, Any,
}
use blackcat_darkmesh_gatewa.JsMap.{JsMap, get, set, has, size, IsUnique}
use blackcat_darkmesh_gatewa.JsMap.Laws.{get-set, set-IsUnique}
use blackcat_darkmesh_gatewa.JsMap.Sizes.{size-set}

-- The segment is the pair of this key and this value.
abbrev pub Says : String → String → String → Type 0
Says key value segment = pair_of (cut b'=' (trim segment)) ≡ ok (key, value)

abbrev filled : String → ℕ
filled segment = if trim segment === "" then 0 else 1

-- How many segments are more than white space.
abbrev pub count_filled : List String → ℕ
count_filled [] = 0
count_filled (segment ∷ segments) = filled segment + count_filled segments

add_filled :
    (segment : String) (result next : JsMap String)
    → (trim segment === "") ≡ false
    → (pair : ValidationResult (String × String)) → pair_of (cut b'=' (trim segment)) ≡ pair
    → add_pair pair result ≡ ok next
    → (((trim segment === "") ≡ true) × (next ≡ result))
      ⊎ ((key : String) × (value : String) × (Says key value segment)
          × (is_txt_key key ≡ true)
          × (has key result ≡ false)
          × (next ≡ set key value result)
          × ((trim segment === "") ≡ false))
add_filled segment result next filled_in (fail code) said done = cc
add_filled segment result next filled_in (ok (key, value)) said done =
    elim (Bool-cases (is_txt_key key)) [
      | inr unknown ↦ ground (arith, unknown, done)
      | inl known ↦ elim (Bool-cases (has key result)) [
        | inl twice ↦ ground (arith, known, twice, done)
        | inr new ↦ inr (key, value, said, known, new, ground (arith, known, new, done), filled_in)
      ]
    ]

add_segment-ok :
    (segment : String) (result next : JsMap String)
    → add_segment (trim segment) result ≡ ok next
    → (((trim segment === "") ≡ true) × (next ≡ result))
      ⊎ ((key : String) × (value : String) × (Says key value segment)
          × (is_txt_key key ≡ true)
          × (has key result ≡ false)
          × (next ≡ set key value result)
          × ((trim segment === "") ≡ false))
add_segment-ok segment result next done = elim (Bool-cases (trim segment === "")) [
  | inl e ↦ inl (e, ground (arith, e, done))
  | inr filled_in ↦
      add_filled segment result next filled_in (pair_of (cut b'=' (trim segment))) refl
        (ground (arith, filled_in, done))
]

pub Result-cases :
    {T : Type 0} (r : ValidationResult T)
    → ((t : T) × (r ≡ ok t)) ⊎ ((code : DmTxtErrorCode) × (r ≡ fail code))
Result-cases (ok t) = inl (t, refl)
Result-cases (fail code) = inr (code, refl)

stops :
    (segments : List String) (code : DmTxtErrorCode) (pairs : JsMap String)
    → parse_segments segments (fail code) ≡ ok pairs
    → ⊥
unfolding parse_segments
stops [] code pairs h = cc
stops (segment ∷ segments) code pairs h = cc

-- One more pair: what was in the map stays, and the new pair is what the segment says.
Origin : (key value : String) → List String → JsMap String → Type 0
Origin key value segments result = Any (Says key value) segments ⊎ (get key result ≡ some value)

set-Origin :
    (k v key value segment : String) (segments : List String) (result : JsMap String)
    → Says k v segment
    → get key (set k v result) ≡ some value
    → Origin key value (segment ∷ segments) result
unfolding Origin
set-Origin k v key value segment segments result said held = elim (Bool-cases (k === key)) [
  | inl same ↦
      let e : k ≡ key = (eq_iff k key).0 same in
      let w : v ≡ value = ground (arith, same, held, get-set k key v result) in
      inl (inl (subst (λ y. Says key y segment) w (subst (λ x. Says x v segment) e said)))
  | inr other ↦ inr (ground (arith, other, held, get-set k key v result))
]

parse_segments-ok :
    (segments : List String) (result pairs : JsMap String)
    → IsUnique result
    → parse_segments segments (ok result) ≡ ok pairs
    → IsUnique pairs
      × (size pairs ≡ size result + count_filled segments)
      × ((key value : String) → get key pairs ≡ some value → Origin key value segments result)
unfolding parse_segments Origin
parse_segments-ok [] result pairs unique done =
    let same : result ≡ pairs = cc in
    (
      subst (λ m. IsUnique m) same unique,
      ground (arith, same),
      λ key value held. inr (ground (arith, same, held)),
    )
parse_segments-ok (segment ∷ segments) result pairs unique done =
    elim (Result-cases (add_segment (trim segment) result)) [
      | inr (code, e) ↦
          absurd
            (stops segments code pairs (subst (λ r. parse_segments segments r ≡ ok pairs) e done))
      | inl (next, e) ↦
          let rest = subst (λ r. parse_segments segments r ≡ ok pairs) e done in
          elim (add_segment-ok segment result next e) [
            | inl (blank, same) ↦
                let (u, count, from) =
                  parse_segments-ok segments next pairs (rw same unique) rest in
                (
                  u,
                  ground (arith, count, same, blank),
                  λ key value held. elim (from key value held) [
                    | inl later ↦ inl (inr later)
                    | inr before ↦ inr (ap (get key) (sym same) ∙ before)
                  ],
                )
            | inr (k, v, said, known, new, same, filled_in) ↦
                let (u, count, from) =
                  parse_segments-ok segments next pairs (rw same (set-IsUnique k v result unique))
                    rest in
                (
                  u,
                  ground (arith, count, same, new, filled_in, size-set k v result),
                  λ key value held. elim (from key value held) [
                    | inl later ↦ inl (inr later)
                    | inr before ↦
                        set-Origin k v key value segment segments result said
                          (ap (get key) (sym same) ∙ before)
                  ],
                )
          ]
    ]

in_empty : (key value : String) → get key [] ≡ some value → ⊥
unfolding get
in_empty key value h = cc

-- An accepted list of pairs has no key twice and as many pairs as segments that are more than white space, and
-- each pair is what one of the segments says.
pub parse_pairs-ok :
    (raw_txt : String) (pairs : JsMap String)
    → parse_pairs raw_txt ≡ ok pairs
    → IsUnique pairs
      × (size pairs ≡ count_filled (split b';' raw_txt))
      × ((key value : String)
          → get key pairs ≡ some value
          → Any (Says key value) (split b';' raw_txt))
unfolding parse_pairs Origin
parse_pairs-ok raw_txt pairs done =
    let (unique, count, from) = parse_segments-ok (split b';' raw_txt) [] pairs tt done in
    (
      unique,
      omega (arith, count),
      λ key value held. elim (from key value held) [
        | inl said ↦ said
        | inr nowhere ↦ absurd (in_empty key value nowhere)
      ],
    )

-- An accepted envelope has identifiers of the form of Arweave's and a time to live from a minute to a day.
pub validate_dm_txt_envelope-ok :
    (parsed : ParsedTxtPairs) (e : DmTxtEnvelope)
    → validate_dm_txt_envelope parsed ≡ ok e
    → (parsed.v ≡ "dm1")
      × (e.cfg ≡ parsed.cfg)
      × (is_arweave_id e.cfg ≡ true)
      × (e.kid ≡ parsed.kid)
      × (is_arweave_id e.kid ≡ true)
      × (is_number parsed.ttl ≡ true)
      × (leading_digits none parsed.ttl ≡ some e.ttl)
      × (60 ≤ e.ttl)
      × (e.ttl ≤ 86400)
unfolding validate_dm_txt_envelope
validate_dm_txt_envelope-ok parsed e done = elim (Option-cases (leading_digits none parsed.ttl)) [
  | inl none_read ↦ ground (arith, done, none_read)
  | inr (n, read) ↦ ground (arith, done, read, eq_iff parsed.v "dm1")
]
