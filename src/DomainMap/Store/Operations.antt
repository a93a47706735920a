-- ===== src/DomainMap/Store/Operations.antt =====
-- The operations on the KV store of domainMapStore.ts, over its adapter in memory. `clock` is what
-- `Date.now()` answers.
use Prim.Native.String.{◌++◌ as ◌+++◌}
use blackcat_darkmesh_gatewa.Text.{starts_with, strip_prefix}
use blackcat_darkmesh_gatewa.Json.{obj}
use blackcat_darkmesh_gatewa.Json.Keys.{sort_entries}
use blackcat_darkmesh_gatewa.DomainMap.{
  DomainMapStatus, DomainMapError, DomainMapEntry, normalize_domain_host,
  create_empty_domain_map_entry,
}
use blackcat_darkmesh_gatewa.DomainMap.Store.{
  Stored, empty_text, stored, domain_map_key, parse_domain_map_entry, entry_fields,
}
use blackcat_darkmesh_gatewa.Base.{
  ℕ, ◌≡◌, ap, ◌∙◌, String, Option, none, some, List, [], ◌∷◌, map, ◌===◌, if◌then◌else◌, or_else,
  option_map,
}
use blackcat_darkmesh_gatewa.JsMap.{JsMap, get, set, delete}

infixl 5 ◌>>=◌
abbrev pub ◌>>=◌ {ℓ κ} : {A : Type ℓ} {B : Type κ} → Option A → (A → Option B) → Option B
none >>= f = none
some a >>= f = f a

-- A step that succeeds, before the rest of a block.
pub bind_some {ℓ κ} :
    {A : Type ℓ} {B : Type κ} (m : Option A) (a : A) (f : A → Option B) (r : Option B)
    → m ≡ some a
    → f a ≡ r
    → (m >>= f) ≡ r
bind_some m a f r e h = ap (λ o. o >>= f) e ∙ h

-- `if (!raw)`: an empty text is as good as none.
abbrev pub filled_raw : Option Stored → Option Stored
filled_raw (some empty_text) = none
filled_raw other = other

abbrev pub parse_found : Option Stored → String → ℕ → Option (Option DomainMapEntry)
parse_found none hint clock = some none
parse_found (some raw) hint clock =
    option_map (λ entry. some entry) (parse_domain_map_entry raw (some hint) clock)

unfoldable pub get_domain_map_entry : JsMap Stored → String → ℕ → Option (Option DomainMapEntry)
unfolding domain_map_key parse_domain_map_entry get
get_domain_map_entry kv host clock = do
  key ← domain_map_key host
  parse_found (filled_raw (get key kv)) host clock

unfoldable pub put_domain_map_entry : JsMap Stored → DomainMapEntry → Option (JsMap Stored)
unfolding domain_map_key entry_fields set
put_domain_map_entry kv entry =
    option_map (λ key. set key (stored (obj (entry_fields entry))) kv) (domain_map_key entry.host)

unfoldable pub delete_domain_map_entry : JsMap Stored → String → Option (JsMap Stored)
unfolding domain_map_key delete
delete_domain_map_entry kv host = option_map (λ key. delete key kv) (domain_map_key host)

-- `[...this.store.keys()].filter(…)`, then `keys.sort()`.
unfoldable pub with_prefix : String → JsMap Stored → JsMap Stored
unfolding starts_with
with_prefix prefix [] = []
with_prefix prefix ((key, raw) ∷ kv) =
    if starts_with prefix key then (key, raw) ∷ with_prefix prefix kv else with_prefix prefix kv

abbrev pub keys_of : JsMap Stored → List String
keys_of kv = map (λ (entry : String × Stored). entry.0) kv

unfoldable pub list_keys : String → JsMap Stored → List String
unfolding with_prefix sort_entries
list_keys prefix kv = keys_of (sort_entries (with_prefix prefix kv))

abbrev pub add_found : Option DomainMapEntry → List DomainMapEntry → List DomainMapEntry
add_found none entries = entries
add_found (some entry) entries = entry ∷ entries

-- One error that is thrown refuses the whole list, as `Promise.all` does.
unfoldable pub entries_of : List String → JsMap Stored → ℕ → Option (List DomainMapEntry)
unfolding get parse_domain_map_entry strip_prefix
entries_of [] kv clock = some []
entries_of (key ∷ keys) kv clock = do
  found ←
      parse_found (filled_raw (get key kv)) (or_else (strip_prefix "domain:" key) "invalid.local")
        clock
  entries ← entries_of keys kv clock
  some (add_found found entries)

abbrev pub prefix_of : Option String → Option String
prefix_of none = some ""
prefix_of (some host_prefix) =
    if host_prefix === "" then some "" else normalize_domain_host host_prefix

unfoldable pub list_domain_map_entries :
    JsMap Stored → Option String → ℕ → Option (List DomainMapEntry)
unfolding normalize_domain_host list_keys entries_of
list_domain_map_entries kv host_prefix clock = do
  prefix ← prefix_of host_prefix
  entries_of (list_keys ("domain:" +++ prefix) kv) kv clock

-- A field of a patch: `none` where the patch lacks it, `some none` for null.
pub record DomainStatusMetadataPatch : Type 0 where
  pub status : Option (Option DomainMapStatus)
  pub verified_at : Option (Option ℕ)
  pub expires_at : Option (Option ℕ)
  pub hb_verified_at : Option (Option ℕ)
  pub hard_expires_at : Option (Option ℕ)
  pub last_error : Option (Option DomainMapError)
  pub last_success_at : Option (Option ℕ)
  pub last_error_at : Option (Option ℕ)
  pub last_error_code : Option (Option String)
  pub refresh_attempts : Option (Option ℕ)
  pub now_ms : Option ℕ

-- What a patched error says about its time and its code.
abbrev pub patched_error : Option (Option DomainMapError) → DomainMapEntry → DomainMapEntry
patched_error (some (some e)) entry = record entry {
  last_error_at = some e.at;
  last_error_code = some e.code;
}
patched_error other entry = entry

abbrev pub patched_status : Option (Option DomainMapStatus) → DomainMapStatus → DomainMapStatus
patched_status none status = status
patched_status (some given) status = or_else given DomainMapStatus.invalid

abbrev pub patched_attempts : Option (Option ℕ) → ℕ → ℕ
patched_attempts none attempts = attempts
patched_attempts (some given) attempts = or_else given 0

unfoldable pub apply_patch : DomainStatusMetadataPatch → ℕ → DomainMapEntry → DomainMapEntry
apply_patch patch now_ms entry =
    let next : DomainMapEntry = record entry {
      status = patched_status patch.status entry.status;
      verified_at = or_else patch.verified_at entry.verified_at;
      expires_at = or_else patch.expires_at entry.expires_at;
      hb_verified_at = or_else patch.hb_verified_at entry.hb_verified_at;
      hard_expires_at = or_else patch.hard_expires_at entry.hard_expires_at;
      last_error = or_else patch.last_error entry.last_error;
      last_success_at = or_else patch.last_success_at entry.last_success_at;
      last_error_at = or_else patch.last_error_at entry.last_error_at;
      last_error_code = or_else patch.last_error_code entry.last_error_code;
      refresh_attempts = patched_attempts patch.refresh_attempts entry.refresh_attempts;
    } in
    record (patched_error patch.last_error next) { updated_at = now_ms }

abbrev pub parse_or_create : Option Stored → String → ℕ → ℕ → Option DomainMapEntry
parse_or_create none host clock now_ms = create_empty_domain_map_entry host now_ms
parse_or_create (some raw) host clock now_ms = parse_domain_map_entry raw (some host) clock

unfoldable pub upsert_domain_status_metadata :
    JsMap Stored → String → DomainStatusMetadataPatch → ℕ → Option (JsMap Stored × DomainMapEntry)
unfolding normalize_domain_host domain_map_key parse_domain_map_entry create_empty_domain_map_entry
    apply_patch entry_fields get set
upsert_domain_status_metadata kv host patch clock = do
  normalized_host ← normalize_domain_host host
  key ← domain_map_key normalized_host
  let now_ms = or_else patch.now_ms clock
  existing ← parse_or_create (filled_raw (get key kv)) normalized_host clock now_ms
  let next = apply_patch patch now_ms existing
  some (set key (stored (obj (entry_fields next))) kv, next)
