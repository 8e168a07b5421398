-- ===== src/Smpp.antt =====
-- What the sources use of the smpp_pdu library: the command identifiers that
-- ksmppc/src/smpppdu_queue.hpp and ksmppc/src/session_manager.cpp name, a PDU as a value, and the
-- library itself as a record of functions and of the facts that the sources rely on.
pub mod Commands
pub mod Standard
use kiss_smpp.Common.{
  ℕ, ◌≤◌, ◌<◌, ◌^◌, ◌≡◌, Bool, true, false, Option, none, some, List, [], ◌∷◌, ◌==◌, if◌then◌else◌,
}
use Prim.Native.String.{String}

pub data CommandId : Type 0 where
  alert_notification bind_receiver bind_receiver_resp bind_transceiver : CommandId
  bind_transceiver_resp bind_transmitter bind_transmitter_resp broadcast_sm : CommandId
  broadcast_sm_resp cancel_broadcast_sm cancel_broadcast_sm_resp cancel_sm : CommandId
  cancel_sm_resp data_sm data_sm_resp deliver_sm deliver_sm_resp enquire_link : CommandId
  enquire_link_resp generic_nack outbind query_broadcast_sm query_broadcast_sm_resp : CommandId
  query_sm query_sm_resp replace_sm replace_sm_resp submit_multi submit_multi_resp : CommandId
  submit_sm submit_sm_resp unbind unbind_resp : CommandId

-- Every identifier, in the order of the `switch` in SmppPduBase64Bicoder::decode.
abbrev pub all_commands : List CommandId
all_commands =
    alert_notification ∷ bind_receiver ∷ bind_receiver_resp ∷ bind_transceiver
    ∷ bind_transceiver_resp ∷ bind_transmitter ∷ bind_transmitter_resp ∷ broadcast_sm
    ∷ broadcast_sm_resp ∷ cancel_broadcast_sm ∷ cancel_broadcast_sm_resp ∷ cancel_sm
    ∷ cancel_sm_resp ∷ data_sm ∷ data_sm_resp ∷ deliver_sm ∷ deliver_sm_resp ∷ enquire_link
    ∷ enquire_link_resp ∷ generic_nack ∷ outbind ∷ query_broadcast_sm ∷ query_broadcast_sm_resp
    ∷ query_sm ∷ query_sm_resp ∷ replace_sm ∷ replace_sm_resp ∷ submit_multi ∷ submit_multi_resp
    ∷ submit_sm ∷ submit_sm_resp ∷ unbind ∷ unbind_resp ∷ []

-- The responses of the protocol, less generic_nack.
unfoldable pub is_response : CommandId → Bool
is_response bind_receiver_resp = true
is_response bind_transceiver_resp = true
is_response bind_transmitter_resp = true
is_response broadcast_sm_resp = true
is_response cancel_broadcast_sm_resp = true
is_response cancel_sm_resp = true
is_response data_sm_resp = true
is_response deliver_sm_resp = true
is_response enquire_link_resp = true
is_response query_broadcast_sm_resp = true
is_response query_sm_resp = true
is_response replace_sm_resp = true
is_response submit_multi_resp = true
is_response submit_sm_resp = true
is_response unbind_resp = true
is_response _ = false

pub record BindFields : Type 0 where
  pub system_id : String
  pub password : String
  pub system_type : String
  pub interface_version : ℕ
  pub ton : ℕ
  pub npi : ℕ
  pub address_range : String

pub record MessageFields : Type 0 where
  pub service_type : String
  pub source_ton : ℕ
  pub source_npi : ℕ
  pub source_address : String
  pub destination_ton : ℕ
  pub destination_npi : ℕ
  pub destination_address : String
  pub esm_class : ℕ
  pub protocol_id : ℕ
  pub priority_flag : ℕ
  pub schedule_delivery_time : String
  pub validity_period : String
  pub registered_delivery : ℕ
  pub replace_if_present_flag : ℕ
  pub data_coding : ℕ
  pub sm_default_msg_id : ℕ
  pub short_message : String

-- What follows the header of a PDU, as far as the sources read or write it.
pub data Body : Type 0 where
  opaque : Body
  bind_body : BindFields → Body
  message_body : MessageFields → Body

pub record Pdu : Type 0 where
  pub command_id : ℕ
  pub command_status : ℕ
  pub sequence_number : ℕ
  pub body : Body

-- A pointer to a PDU, which may be null.
abbrev pub SharedSmppPdu : Type 0
SharedSmppPdu = Option Pdu

-- A PDU as it was read from the socket: the four numbers of its header, and its bytes.
pub record RawPdu : Type 0 where
  pub cmd_length : ℕ
  pub cmd_id : ℕ
  pub cmd_status : ℕ
  pub seq_num : ℕ
  pub bytes : List ℕ

-- A std::runtime_error, or an exception of another class.
pub data Exception : Type 0 where
  runtime_error foreign_error : Exception

pub data Decoded : Type 0 where
  decoded : Pdu → Decoded
  throws : Exception → Decoded

-- The smpp_pdu library. `create c` is a PDU of the class of `c` that its default constructor makes,
-- `decode c raw` one that the constructor from bytes makes.
pub record Smpp : Type 0 where
  pub code : CommandId → ℕ
  pub code_injective : (c d : CommandId) → code c ≡ code d → c ≡ d
  pub code_le_nack : (c : CommandId) → is_response c ≡ false → code c ≤ code generic_nack
  pub nack_lt_response : (c : CommandId) → is_response c ≡ true → code generic_nack < code c
  pub bind_receiver_resp_first :
      (c : CommandId) → is_response c ≡ true → code bind_receiver_resp ≤ code c
  pub esme_rok : ℕ
  pub seq_min : ℕ
  pub seq_max : ℕ
  pub seq_min_lt_max : seq_min < seq_max
  pub seq_max_lt : seq_max < 2 ^ 31
  pub create : CommandId → Pdu
  pub create_command : (c : CommandId) → (create c).command_id ≡ code c
  pub create_unnumbered : (c : CommandId) → (create c).sequence_number ≤ seq_min
  pub decode : CommandId → RawPdu → Decoded

pub find_command : (CommandId → ℕ) → ℕ → List CommandId → Option CommandId
find_command code n [] = none
find_command code n (c ∷ cs) = if code c == n then some c else find_command code n cs

-- The label of a `switch` over all the identifiers that the number `n` takes, if any.
unfoldable pub command : Smpp → ℕ → Option CommandId
unfolding find_command
command lib n = find_command lib.code n all_commands
