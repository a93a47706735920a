-- ===== src/DnsTxt/Tests.antt =====
-- A TXT record by example.
use blackcat_darkmesh_gatewa.DnsTxt.{
  ok, fail, txt_duplicate_key, DmTxtEnvelope, parse_segments, parse_pairs, parse_dm_txt_payload,
  is_arweave_id, is_number, validate_dm_txt_envelope, parse_and_validate_dm_txt_envelope,
}
use blackcat_darkmesh_gatewa.DnsTxt.Sound.{Says, count_filled, parse_pairs-ok}
use blackcat_darkmesh_gatewa.DnsTxt.Accepted.{parse_and_validate_dm_txt_envelope-ok}
use blackcat_darkmesh_gatewa.Text.{
  all_chars, trim, trim_start, trim_end, to_lower, cut, split, leading_digits,
}
use blackcat_darkmesh_gatewa.Base.{◌≤◌, ◌≡◌, refl, String, true, none, some, [], ◌∷◌, Any}
use blackcat_darkmesh_gatewa.JsMap.{JsMap, get, set, size, IsUnique}

abbrev id : String
id = "abcdefghijklmnopqrstuvwxyz-_ABCDEF"

abbrev record_text : String
record_text =
    " v=dm1; cfg=abcdefghijklmnopqrstuvwxyz-_ABCDEF;;KID = abcdefghijklmnopqrstuvwxyz-_ABCDEF; ttl=0300 "

abbrev envelope : DmTxtEnvelope
envelope = record { cfg = id; kid = id; ttl = 300 }

parsed : parse_and_validate_dm_txt_envelope (some record_text) ≡ ok envelope
unfolding parse_and_validate_dm_txt_envelope parse_dm_txt_payload parse_pairs parse_segments
    validate_dm_txt_envelope is_arweave_id is_number all_chars trim trim_start trim_end to_lower cut
    split leading_digits get set
parsed = refl

twice : parse_pairs "v=1;V=2" ≡ fail txt_duplicate_key
unfolding parse_pairs parse_segments trim trim_start trim_end to_lower cut split get set
twice = refl

abbrev two_pairs : JsMap String
two_pairs = ("v", "1") ∷ ("kid", "2") ∷ []

paired : parse_pairs "v=1;; kid =2" ≡ ok two_pairs
unfolding parse_pairs parse_segments trim trim_start trim_end to_lower cut split get set
paired = refl

parse_pairs-ok_example :
    IsUnique two_pairs
    × (size two_pairs ≡ count_filled (split b';' "v=1;; kid =2"))
    × ((key value : String)
        → get key two_pairs ≡ some value
        → Any (Says key value) (split b';' "v=1;; kid =2"))
parse_pairs-ok_example = parse_pairs-ok "v=1;; kid =2" two_pairs paired

parse_and_validate_dm_txt_envelope-ok_example :
    let segments = split b';' (trim record_text) in
    Any (Says "v" "dm1") segments
    × Any (Says "cfg" id) segments
    × Any (Says "kid" id) segments
    × ((ttl : String) × Any (Says "ttl" ttl) segments
        × (leading_digits none ttl ≡ some envelope.ttl))
    × (is_arweave_id id ≡ true)
    × (is_arweave_id id ≡ true)
    × (60 ≤ 300)
    × (300 ≤ 86400)
parse_and_validate_dm_txt_envelope-ok_example =
    parse_and_validate_dm_txt_envelope-ok record_text envelope parsed
