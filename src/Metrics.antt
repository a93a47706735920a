-- ===== src/Metrics.antt =====
-- src/metrics.ts: the counters, the gauges and the watch over the audit sequence. The two objects
-- are maps from names. `snapshot` is the state itself; the text of `toProm` is not modelled.
use Prim.Native.Char.{code}
use blackcat_darkmesh_gatewa.Base.{
  ℕ, ◌+◌, String, Bool, false, ◌&&◌, ◌||◌, Option, none, some, [], ◌===◌, ltb, leb, ◌==◌,
  if◌then◌else◌, or_else,
}
use blackcat_darkmesh_gatewa.JsMap.{JsMap, get, set}

pub record Metrics : Type 0 where
  pub counters : JsMap ℕ
  pub gauges : JsMap ℕ
  pub last_seq_to : Option ℕ
  pub seq_from : Option ℕ

abbrev pub empty : Metrics
empty = record { counters = []; gauges = []; last_seq_to = none; seq_from = none }

-- The class `[A-Za-z0-9_]`.
abbrev is_name_char : ℕ → Bool
is_name_char c =
    (leb b'A' c && leb c b'Z')
    || (leb b'a' c && leb c b'z')
    || (leb b'0' c && leb c b'9')
    || c == b'_'

-- `name.replace(/[^A-Za-z0-9_]/g, '_')`
unfoldable pub norm : String → String
norm String.[] = String.[]
norm (String.◌∷◌ c s) =
    let rest = norm s in if is_name_char (code c) then String.◌∷◌ c rest else String.◌∷◌ "_" rest

add_counter : Metrics → String → ℕ → Metrics
add_counter m k value = record m {
  counters = set k (or_else (get k m.counters) 0 + value) m.counters;
}

unfoldable pub inc_by : String → ℕ → Metrics → Metrics
unfolding add_counter
inc_by name value m = add_counter m (norm name) value

abbrev pub inc : String → Metrics → Metrics
inc name m = inc_by name 1 m

abbrev below : ℕ → Option ℕ → Bool
below value none = false
below value (some n) = ltb value n

note_seq_to : ℕ → Metrics → Metrics
note_seq_to value m =
    let anomaly = below value m.seq_from || below value m.last_seq_to in
    let m' = if anomaly then inc "gateway_integrity_audit_stream_anomaly" m else m in
    record m' { last_seq_to = some value }

note_integrity_audit_sequence_metric : String → ℕ → Metrics → Metrics
unfolding note_seq_to
note_integrity_audit_sequence_metric name value m =
    if name === "gateway_integrity_audit_seq_from"
    then record m { seq_from = some value }
    else if name === "gateway_integrity_audit_seq_to"
    then note_seq_to value m
    else m

unfoldable pub gauge : String → ℕ → Metrics → Metrics
unfolding note_integrity_audit_sequence_metric
gauge name value m =
    note_integrity_audit_sequence_metric (norm name) value
      (record m { gauges = set (norm name) value m.gauges })

unfoldable pub reset : Metrics → Metrics
reset m = record { counters = []; gauges = []; last_seq_to = none; seq_from = none }
