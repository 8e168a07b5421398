-- ===== src/SendHandler.antt =====
-- SendHandler::run of ksmppc/src/handler_send.cpp. The property trees of the request and of the
-- configuration belong to kisscpp: they are records of lookups.
pub mod Runs
use kiss_smpp.Common.{ℕ, Option, none, some, List, [], ◌∷◌, ◌++◌}
use kiss_smpp.Smpp.{Smpp, Pdu, MessageFields, message_body, submit_sm, SharedSmppPdu}
use kiss_smpp.Config.{Settings}
use Prim.Native.String.{String}

-- A value, or the key of the lookup that threw.
pub data Fetched {ℓ} (A : Type ℓ) : Type ℓ where
  got : A → Fetched A
  failed : String → Fetched A

infixl 5 ◌>>=◌
abbrev pub ◌>>=◌ {ℓ κ} : {A : Type ℓ} {B : Type κ} → Fetched A → (A → Fetched B) → Fetched B
got a >>= f = f a
failed key >>= f = failed key

abbrev pub or_failed {ℓ} : {A : Type ℓ} → String → Option A → Fetched A
or_failed key none = failed key
or_failed key (some a) = got a

abbrev pub fetch {ℓ} : {A : Type ℓ} → (String → Option A) → String → Fetched A
fetch get key = or_failed key (get key)

-- `request.get<T>(key, default)` and `request.get<T>(key)`
pub record Request : Type 0 where
  pub get_string_or : String → String → String
  pub get_uint8_or : String → ℕ → ℕ
  pub get_string : String → Option String

-- kisscpp::RequestStatus, as far as it is used
pub data RequestStatus : Type 0 where
  rqst_success rqst_unknown : RequestStatus

-- The entries `kcm-sts` and `kcm-erm`
pub record Response : Type 0 where
  pub kcm_sts : Option RequestStatus
  pub kcm_erm : Option String

-- The submit_sm that `run` fills in, with the values whose lookups may throw.
abbrev pub submit_sm_of : Request → ℕ → ℕ → String → String → String → MessageFields
submit_sm_of request ton npi source destination message = record {
  service_type = request.get_string_or "service-type" "";
  source_ton = request.get_uint8_or "source-addr-ton" ton;
  source_npi = request.get_uint8_or "source-addr-npi" npi;
  source_address = source;
  destination_ton = request.get_uint8_or "destination-addr-ton" ton;
  destination_npi = request.get_uint8_or "destination-addr-npi" npi;
  destination_address = destination;
  esm_class = request.get_uint8_or "esm-class" 0;
  protocol_id = request.get_uint8_or "protocol-id" 0;
  priority_flag = request.get_uint8_or "priority-flag" 0;
  schedule_delivery_time = request.get_string_or "schedule-delivery-time" "";
  validity_period = request.get_string_or "validity-period" "";
  registered_delivery = request.get_uint8_or "registered-delivery" 3;
  replace_if_present_flag = request.get_uint8_or "replace-if-presentFlag" 0;
  data_coding = request.get_uint8_or "data-coding" 3;
  sm_default_msg_id = request.get_uint8_or "sm-default-msg-id" 0;
  short_message = message;
}

-- What `run` reads from a request and the configuration. The default of an argument is evaluated
-- whether or not it is used.
unfoldable pub submit_fields : Settings → Request → Fetched MessageFields
submit_fields cfg request = do
  ton ← fetch cfg.get_uint8 "smpp-session.default-type-of-number"
  npi ← fetch cfg.get_uint8 "smpp-session.default-number-plan-indicator"
  source ← fetch request.get_string "source-addr"
  destination ← fetch request.get_string "destination-addr"
  message ← fetch request.get_string "short-message"
  got (submit_sm_of request ton npi source destination message)

-- The `try` block and its handler; `what` is the text of the exception of a lookup.
unfoldable pub push_or_report :
    Smpp
    → (String → String)
    → Fetched MessageFields
    → List SharedSmppPdu
    → Response
    → List SharedSmppPdu × Response
push_or_report smpp what (got fields) q response =
    (q ++ some (record (smpp.create submit_sm) { body = message_body fields }) ∷ [], response)
push_or_report smpp what (failed key) q response =
    (q, record { kcm_sts = some rqst_unknown; kcm_erm = some (what key) })

-- SendHandler::run, with the queue that sendingQ points to
unfoldable pub run :
    Smpp
    → (String → String)
    → Settings
    → Request
    → List SharedSmppPdu
    → Response
    → List SharedSmppPdu × Response
run smpp what cfg request q response =
    let (q', response') = push_or_report smpp what (submit_fields cfg request) q response in
    (q', record response' { kcm_sts = some rqst_success })
