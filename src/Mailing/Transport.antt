-- ===== src/Mailing/Transport.antt =====
-- src/runtime/mailing/transport.ts: what an attempt to send comes to. The call of `fetch` is not
-- modelled, what it answers is an argument of `send`; the text of an error is left out.
use blackcat_darkmesh_gatewa.Base.{
  ℕ, String, Bool, true, false, ◌&&◌, ◌||◌, Option, List, [], ◌∷◌, ltb, leb, ◌==◌, if◌then◌else◌,
}

pub record MailTransportRequest : Type 0 where
  pub to : List String
  pub subject : String
  pub body : String
  pub request_id : Option String

pub data MailDeliveryOutcome : Type 0 where
  success : MailDeliveryOutcome
  retry : MailDeliveryOutcome
  fail_permanent : MailDeliveryOutcome

pub record MailTransportResult : Type 0 where
  pub ok : Bool
  pub status : ℕ
  pub outcome : MailDeliveryOutcome

-- What comes of the request: a response with its status, an abort by the timer, another error.
pub data FetchAnswer : Type 0 where
  responded : ℕ → FetchAnswer
  aborted : FetchAnswer
  failed : FetchAnswer

abbrev pub in_list : ℕ → List ℕ → Bool
in_list n [] = false
in_list n (m ∷ ms) = n == m || in_list n ms

abbrev pub transient_mail_status_codes : List ℕ
transient_mail_status_codes = 0 ∷ 408 ∷ 425 ∷ 429 ∷ 500 ∷ 502 ∷ 503 ∷ 504 ∷ []

abbrev pub is_success : ℕ → Bool
is_success status = leb 200 status && ltb status 300

unfoldable pub classify_mail_delivery_outcome : ℕ → MailDeliveryOutcome
classify_mail_delivery_outcome status =
    if is_success status
    then success
    else if in_list status transient_mail_status_codes
    then retry
    else fail_permanent

abbrev pub counts_as_sent : MailDeliveryOutcome → Bool
counts_as_sent success = true
counts_as_sent _ = false

-- `response.ok` is that the status is from 200 to 299.
unfoldable pub send : FetchAnswer → MailTransportResult
send (responded status) =
    if is_success status then record { ok = true; status = status; outcome = success } else record {
      ok = counts_as_sent (classify_mail_delivery_outcome status);
      status = status;
      outcome = classify_mail_delivery_outcome status;
    }
send aborted = record { ok = false; status = 408; outcome = retry }
send failed = record { ok = false; status = 0; outcome = retry }
