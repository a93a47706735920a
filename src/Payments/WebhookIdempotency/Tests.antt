-- ===== src/Payments/WebhookIdempotency/Tests.antt =====
-- Events by example: two accepted, a replay, a conflict, and the oldest pushed out.
use blackcat_darkmesh_gatewa.Payments.WebhookIdempotency.{
  WebhookIdempotencyBoundary, init, dedupe, reject, prune_expired, prune_oldest, oldest_from,
  oldest_key, accept, accept_new, normalized, classify, classify_pruned,
}
use blackcat_darkmesh_gatewa.Text.{trim, trim_start, trim_end}
use blackcat_darkmesh_gatewa.Base.{◌≡◌, refl, some, [], ◌∷◌, arith}
use blackcat_darkmesh_gatewa.JsMap.{get, set, delete, size, delete_where}
use blackcat_darkmesh_gatewa.Payments.WebhookIdempotency.Classified.{IsValid}
use blackcat_darkmesh_gatewa.Payments.WebhookIdempotency.Answers.{Again, Answers, classify-Answers}
use blackcat_darkmesh_gatewa.Payments.WebhookIdempotency.Histories.{Call, call, after}
use blackcat_darkmesh_gatewa.Payments.WebhookIdempotency.Once.{accepted_once}

abbrev small : WebhookIdempotencyBoundary
small = init (record { ttl_ms = 100; max_keys = 2; key_max_bytes = 8 })

abbrev two : WebhookIdempotencyBoundary
two = record small {
  entries =
      ("x", record { fingerprint = "p"; seen_at = 7 })
      ∷ ("y", record { fingerprint = "q"; seen_at = 5 })
      ∷ [];
}

small-IsValid : IsValid small
unfolding get
small-IsValid = record { unique = tt; named = refl; room = omega arith; bounded = omega arith }

two-IsValid : IsValid two
unfolding get
two-IsValid = record {
  unique = (refl, (refl, tt));
  named = refl;
  room = omega arith;
  bounded = omega arith;
}

pushed_out :
    (classify two (some " z ") "r" dedupe 50 51).0.entries
    ≡ ("x", record { fingerprint = "p"; seen_at = 7 })
      ∷ ("z", record { fingerprint = "r"; seen_at = 51 })
      ∷ []
unfolding classify classify_pruned prune_expired accept_new prune_oldest oldest_key oldest_from
    delete_where get set delete trim trim_start trim_end
pushed_out = refl

abbrev first_call : Call
first_call = record {
  event_id = some " e1";
  fingerprint = "p";
  policy = dedupe;
  now = 10;
  later = 11;
}

abbrev other_call : Call
other_call = record {
  event_id = some "e2";
  fingerprint = "p";
  policy = dedupe;
  now = 20;
  later = 20;
}

abbrev again : Call
again = record { event_id = some "e1 "; fingerprint = "p"; policy = reject; now = 111; later = 112 }

taken : (classify small (some " e1") "p" dedupe 10 11).1 ≡ accept
unfolding classify classify_pruned prune_expired delete_where get trim trim_start trim_end
taken = refl

one_event : size (call first_call small).entries ≡ 1
unfolding classify classify_pruned prune_expired accept_new delete_where get set trim trim_start
    trim_end
one_event = refl

same_id : normalized (some "e1 ") ≡ normalized (some " e1")
unfolding trim trim_start trim_end
same_id = refl

accepted_once_example :
    Again "p" "p" reject
      (classify (after (call first_call small) (other_call ∷ [])) (some "e1 ") "p" reject 111 112).1
accepted_once_example =
    accepted_once small first_call (other_call ∷ []) again small-IsValid taken
      (omega (arith, one_event)) (omega arith, tt) same_id (omega arith)

classify-Answers_example :
    Answers two "x" "p" reject 50 (classify two (some "x") "p" reject 50 51).1
unfolding trim trim_start trim_end
classify-Answers_example = classify-Answers two (some "x") "p" reject 50 51 two-IsValid
