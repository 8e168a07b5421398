-- ===== src/Tests/Passes.antt =====
-- The daemon's processors at concrete inputs.
use kiss_smpp.Session.Write.{number_pdu}
use kiss_smpp.Common.{ℕ, true, ◌≡◌, refl, List, [], ◌∷◌, inr, some, none}
use kiss_smpp.Smpp.{
  Pdu, MessageFields, message_body, deliver_sm, command, decoded, deliver_sm_resp, SharedSmppPdu,
}
use kiss_smpp.Smpp.Standard.{standard_create, standard}
use kiss_smpp.TransmitQueue.{Items}
use kiss_smpp.Session.{closed, Platform, Session, success, ok}
use kiss_smpp.Daemon.{
  Daemon, Comms, answered, retryable_failure, Value, did, passes, recieve_processor,
  sending_processor, request_of, deliver_sm2ptree, smpp2ptree, crash,
}
use kiss_smpp.Daemon.Sends.{sending_loses}
use kiss_smpp.Daemon.Nulls.{null_crashes, sending-non_null}
use kiss_smpp.Session.Handlers.{handle_read_body}
use kiss_smpp.Session.Receive.{response_pdu}
use kiss_smpp.Session.Receiving.Answer.{Answers}
use kiss_smpp.Daemon.Forwards.{deliver_sm_forwarded}
use kiss_smpp.Tests.Fixture.{lists, bound, submit, raw_pdu}
use Prim.Native.String.{String}

abbrev hello : MessageFields
hello = record {
  service_type = "";
  source_ton = 1;
  source_npi = 1;
  source_address = "27831234567";
  destination_ton = 1;
  destination_npi = 1;
  destination_address = "27837654321";
  esm_class = 4;
  protocol_id = 0;
  priority_flag = 0;
  schedule_delivery_time = "";
  validity_period = "";
  registered_delivery = 0;
  replace_if_present_flag = 1;
  data_coding = 3;
  sm_default_msg_id = 0;
  short_message = "hello";
}

-- A deliver_sm with the number `n`.
abbrev pub delivered : ℕ → Pdu
delivered n = record (standard_create deliver_sm) { sequence_number = n; body = message_body hello }

abbrev pub daemon : Daemon Items
daemon = record {
  running = true;
  send_handler = true;
  sending_buffer = some (submit 7) ∷ [];
  rcv_err_buffer = [];
  session = record bound { rx_q = some (delivered 1) ∷ some (delivered 2) ∷ [] };
  handed = [];
}

abbrev pub unreachable_host : List (String × Value) → Comms
unreachable_host r = retryable_failure

abbrev pub answering : List (String × Value) → Comms
answering r = answered

abbrev pub sequence_of : SharedSmppPdu → ℕ
sequence_of none = 0
sequence_of (some pdu) = pdu.sequence_number

-- A library that reads every PDU as a deliver_sm with a text.
abbrev texts : Platform Items
texts = record lists {
  smpp = record standard { decode = λ c raw. decoded (delivered raw.seq_num) };
}

-- The session after the read of a third message.
deliver_sm_forwarded_example :
    (t : Session Items) × (handle_read_body texts (raw_pdu deliver_sm 3) success daemon.session
      ≡ ok t)
    × Answers texts (response_pdu texts deliver_sm_resp 3) daemon.session t
    × ((number_pdu texts (response_pdu texts deliver_sm_resp 3) daemon.session).0.sequence_number
        ≡ 3)
    × (passes (recieve_processor texts answering) 3 (record daemon { session = t })
        ≡ did (record daemon {
          session = record t { rx_q = [] };
          handed = some (delivered 1) ∷ some (delivered 2) ∷ some (delivered 3) ∷ [];
        }))
unfolding request_of smpp2ptree command deliver_sm2ptree
deliver_sm_forwarded_example =
    deliver_sm_forwarded texts answering (raw_pdu deliver_sm 3) (delivered 3) daemon refl (inr refl)
      refl refl (λ r. refl) ((_, refl), ((_, refl), tt)) (_, refl)

abbrev closed_daemon : Daemon Items
closed_daemon = record daemon { session = record bound { current_state = closed } }

sending_loses_example :
    passes
      (sending_processor lists)
      3
      (record closed_daemon { sending_buffer = some (submit 7) ∷ none ∷ some (submit 8) ∷ [] })
    ≡ did (record closed_daemon { sending_buffer = [] })
sending_loses_example =
    sending_loses lists (some (submit 7) ∷ none ∷ some (submit 8) ∷ []) closed_daemon refl refl

-- A null pointer waits behind a message.
abbrev null_behind : Daemon Items
null_behind = record daemon { session = record bound { rx_q = some (delivered 1) ∷ none ∷ [] } }

null_crashes_example : passes (recieve_processor lists unreachable_host) 2 null_behind ≡ crash
null_crashes_example =
    null_crashes lists unreachable_host (some (delivered 1) ∷ []) [] null_behind refl refl

sending-non_null_example :
    passes
      (sending_processor lists)
      2
      (record daemon { sending_buffer = none ∷ some (submit 7) ∷ [] })
    ≡ passes (sending_processor lists) 1 (record daemon { sending_buffer = some (submit 7) ∷ [] })
sending-non_null_example = sending-non_null lists (none ∷ some (submit 7) ∷ []) daemon refl
