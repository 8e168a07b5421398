-- ===== src/Smpp/Standard.antt =====
-- The identifiers of the SMPP 5.0 protocol, as an instance of the library's interface for the
-- tests.
use kiss_smpp.Common.{ℕ, ◌≤◌, ◌<◌, ◌≡◌, refl, ap, true, false, some, arith}
use kiss_smpp.Smpp.{
  CommandId, Smpp, Pdu, RawPdu, Decoded, decoded, all_commands, is_response, find_command, opaque,
  alert_notification, bind_receiver, bind_receiver_resp, bind_transceiver, bind_transceiver_resp,
  bind_transmitter, bind_transmitter_resp, broadcast_sm, broadcast_sm_resp, cancel_broadcast_sm,
  cancel_broadcast_sm_resp, cancel_sm, cancel_sm_resp, data_sm, data_sm_resp, deliver_sm,
  deliver_sm_resp, enquire_link, enquire_link_resp, generic_nack, outbind, query_broadcast_sm,
  query_broadcast_sm_resp, query_sm, query_sm_resp, replace_sm, replace_sm_resp, submit_multi,
  submit_multi_resp, submit_sm, submit_sm_resp, unbind, unbind_resp,
}

abbrev pub standard_code : CommandId → ℕ
standard_code alert_notification = 0x102
standard_code bind_receiver = 0x1
standard_code bind_receiver_resp = 0x80000001
standard_code bind_transceiver = 0x9
standard_code bind_transceiver_resp = 0x80000009
standard_code bind_transmitter = 0x2
standard_code bind_transmitter_resp = 0x80000002
standard_code broadcast_sm = 0x111
standard_code broadcast_sm_resp = 0x80000111
standard_code cancel_broadcast_sm = 0x113
standard_code cancel_broadcast_sm_resp = 0x80000113
standard_code cancel_sm = 0x8
standard_code cancel_sm_resp = 0x80000008
standard_code data_sm = 0x103
standard_code data_sm_resp = 0x80000103
standard_code deliver_sm = 0x5
standard_code deliver_sm_resp = 0x80000005
standard_code enquire_link = 0x15
standard_code enquire_link_resp = 0x80000015
standard_code generic_nack = 0x80000000
standard_code outbind = 0xb
standard_code query_broadcast_sm = 0x112
standard_code query_broadcast_sm_resp = 0x80000112
standard_code query_sm = 0x3
standard_code query_sm_resp = 0x80000003
standard_code replace_sm = 0x7
standard_code replace_sm_resp = 0x80000007
standard_code submit_multi = 0x21
standard_code submit_multi_resp = 0x80000021
standard_code submit_sm = 0x4
standard_code submit_sm_resp = 0x80000004
standard_code unbind = 0x6
standard_code unbind_resp = 0x80000006

pub find_command-standard_code :
    (c : CommandId) → find_command standard_code (standard_code c) all_commands ≡ some c
unfolding find_command
find_command-standard_code alert_notification = refl
find_command-standard_code _ = refl

pub standard_code_injective : (c d : CommandId) → standard_code c ≡ standard_code d → c ≡ d
standard_code_injective c d h = cc (
  find_command-standard_code c,
  find_command-standard_code d,
  ap (λ n. find_command standard_code n all_commands) h,
)

pub standard_le_nack : (c : CommandId) → is_response c ≡ false → standard_code c ≤ 0x80000000
unfolding is_response
standard_le_nack bind_receiver_resp h = ground arith
standard_le_nack _ h = ground arith

pub standard_nack_lt : (c : CommandId) → is_response c ≡ true → 0x80000000 < standard_code c
unfolding is_response
standard_nack_lt bind_receiver_resp h = ground arith
standard_nack_lt _ h = ground arith

pub standard_first : (c : CommandId) → is_response c ≡ true → 0x80000001 ≤ standard_code c
standard_first c h = standard_nack_lt c h

abbrev pub standard_create : CommandId → Pdu
standard_create c = record {
  command_id = standard_code c;
  command_status = 0;
  sequence_number = 0;
  body = opaque;
}

-- A test decoder: it keeps the header and reads no field of the body.
abbrev pub standard_decode : CommandId → RawPdu → Decoded
standard_decode c raw = decoded (record {
  command_id = raw.cmd_id;
  command_status = raw.cmd_status;
  sequence_number = raw.seq_num;
  body = opaque;
})

abbrev pub standard : Smpp
standard = record {
  code = standard_code;
  code_injective = standard_code_injective;
  code_le_nack = standard_le_nack;
  nack_lt_response = standard_nack_lt;
  bind_receiver_resp_first = standard_first;
  esme_rok = 0;
  seq_min = 1;
  seq_max = 0x7fffffff;
  seq_min_lt_max = omega arith;
  seq_max_lt = omega arith;
  create = standard_create;
  create_command = λ c. refl;
  create_unnumbered = λ c. omega arith;
  decode = standard_decode;
}
