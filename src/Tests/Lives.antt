-- ===== src/Tests/Lives.antt =====
-- The daemon at concrete inputs: its start, requests and runs.
use kiss_smpp.Daemon.System.{Happens, receives, destroyed, at_first, later}
use kiss_smpp.Daemon.{
  Daemon, Pass, did, passes, recieve_processor, receive_from, send_request, hand_over,
  sending_processor, request_of, deliver_sm2ptree, smpp2ptree,
}
use kiss_smpp.Common.{true, if◌then◌else◌, ◌≡◌, ◌≤◌, refl, none, some, List, [], ◌∷◌, ◌⊎◌, arith}
use kiss_smpp.Smpp.{MessageFields, submit_sm, command, SharedSmppPdu}
use kiss_smpp.Smpp.Standard.{standard}
use kiss_smpp.Config.{Config, trx, Settings, session_config, make_bind_type, make_interface_version}
use kiss_smpp.Config.Loads.{Reads}
use kiss_smpp.TransmitQueue.{Items, message, pop_items}
use kiss_smpp.Session.{State, bound_trx, Session}
use kiss_smpp.Session.Close.{
  construct, initial, start_session, set_txq, connect, set_w4r_q_ageing_timer, stop, close_session,
  close_session, do_unbind_request, resolve_query, set_throttle,
}
use kiss_smpp.Session.Write.{do_write, is_writing, write_pdu, transmit}
use kiss_smpp.Sequence.{next}
use kiss_smpp.Session.Send.{sends_bound_tx}
use kiss_smpp.Session.Overlap.{Goes, Waits}
use kiss_smpp.Session.Invariant.{IsValid}
use kiss_smpp.Session.Binding.{bound_by}
use kiss_smpp.Session.Sending.{permitted}
use kiss_smpp.SendHandler.{Request, Response, run, submit_fields, submit_sm_of}
use kiss_smpp.Daemon.Start.{
  Started, started, start_daemon, start_sessions, with_session, construct_queues, register_handlers,
  register_as, register_for, stop_daemon, stopped,
}
use kiss_smpp.Daemon.Starts.{New, response_to, start_daemon_lem, started_iff, FindsCentre}
use kiss_smpp.Daemon.Receives.{received}
use kiss_smpp.Daemon.Delivers.{submission, request_delivered}
use kiss_smpp.Daemon.Lasts.{Lives-IsValid}
use kiss_smpp.Daemon.Preserves.{Lives-received}
use kiss_smpp.Tests.Fixture.{lists, submit, no_pdus}
use Prim.Native.String.{String}
use text.Mathlib.Text.{◌==◌ as str_eq}
use kiss_smpp.Tests.Passes.{delivered, daemon, answering, sequence_of}

-- A configuration with every setting.
abbrev pub full_settings : Settings
full_settings = record {
  get_string = λ key. if str_eq key "smpp-session.bind-type" then some "TRX" else some "ksmppc";
  get_unsigned = λ key. some 20;
  get_uint8 = λ key. some 1;
  get_int_or = λ key n. n;
}

-- A request with two addresses and a text.
abbrev pub greeting : Request
greeting = record {
  get_string_or = λ key s. s;
  get_uint8_or = λ key n. n;
  get_string = λ key. some (if str_eq key "short-message" then "hello" else "27831234567");
}

abbrev pub no_answer : Response
no_answer = record { kcm_sts = none; kcm_erm = none }

abbrev pub greeting_fields : MessageFields
greeting_fields = submit_sm_of greeting 1 1 "27831234567" "27831234567" "hello"

request_delivered_example :
    (s t : Session Items) × (passes (sending_processor lists) 2 (record daemon {
      sending_buffer =
          (run standard (λ key. key) full_settings greeting daemon.sending_buffer no_answer).0;
    })
      ≡ did (record daemon { sending_buffer = []; session = t }))
    × (s.current_state ≡ bound_trx)
    × (Goes lists (submission standard greeting_fields) s t
        ⊎ Waits lists (submission standard greeting_fields) message s t)
unfolding sends_bound_tx submit_fields
request_delivered_example =
    request_delivered lists (λ key. key) full_settings greeting no_answer greeting_fields daemon
      refl ((submit_sm, refl), tt) refl refl

abbrev pub full_config : Config
full_config = record {
  system_id = "ksmppc";
  password = "ksmppc";
  system_type = "ksmppc";
  interface_version = 0x34;
  addr_ton = 1;
  addr_npi = 1;
  address_range = "ksmppc";
  enquire_link_timeout = 20;
  enquire_link_resp_timeout = 20;
  tx_throttle_limit = 20;
  type_of_bind = trx;
}

pub full_config-Reads : Reads full_settings full_config
full_config-Reads = record {
  link = refl;
  link_resp = refl;
  id = refl;
  pass = refl;
  kind = refl;
  version = ground arith;
  ton = refl;
  npi = refl;
  range = refl;
  limit = refl;
  bind = refl;
}

abbrev pub centre : FindsCentre lists full_settings
centre = record { host = "ksmppc"; port = "ksmppc"; host_set = refl; port_set = refl; found = refl }

-- What the persisted buffers hold: one message each.
abbrev stored_buffers : String → List SharedSmppPdu
stored_buffers name =
    if str_eq name "sendingBuffer" then some (submit 7) ∷ [] else some (delivered 1) ∷ []

start_daemon_lem_example :
    (d : Daemon Items) × (start_daemon lists full_settings stored_buffers no_pdus 1000 ≡ started d)
    × (d.running ≡ true)
    × New lists full_config (some (delivered 1) ∷ []) d.session
    × (d.sending_buffer ≡ some (submit 7) ∷ [])
    × (d.rcv_err_buffer ≡ some (delivered 1) ∷ [])
    × ((p : State) × (bound_by (response_to trx) ≡ some p)
        × (permitted p submit_sm ≡ d.send_handler))
start_daemon_lem_example =
    start_daemon_lem lists full_settings full_config stored_buffers no_pdus 1000 full_config-Reads
      centre (λ e. cc)

started_iff_example :
    (d : Daemon Items) × (start_daemon lists full_settings stored_buffers no_pdus 1000 ≡ started d)
started_iff_example =
    (started_iff lists full_settings stored_buffers no_pdus 1000).1
      (full_config, full_config-Reads, centre, λ e. cc)

abbrev daemon_of : Started Items → Daemon Items
daemon_of (started d) = d
daemon_of _ = daemon

abbrev first_daemon : Daemon Items
first_daemon = daemon_of (start_daemon lists full_settings stored_buffers no_pdus 1000)

-- The message that the receive buffer kept is handed over.
abbrev after_receiving : Daemon Items
after_receiving = record first_daemon {
  session = record first_daemon.session { rx_q = [] };
  handed = some (delivered 1) ∷ [];
}

Lives-IsValid_example : IsValid lists after_receiving.session
unfolding start_daemon start_sessions with_session construct_queues register_handlers register_as
    register_for session_config make_bind_type make_interface_version construct initial
    start_session resolve_query set_throttle set_txq connect set_w4r_q_ageing_timer
    recieve_processor receive_from send_request hand_over request_of smpp2ptree command
    deliver_sm2ptree
Lives-IsValid_example =
    Lives-IsValid lists (λ key. key) full_settings stored_buffers no_pdus 1000 first_daemon
      after_receiving refl (later at_first (receives answering refl))

abbrev daemon_after : Pass Items → Daemon Items
daemon_after (did d) = d
daemon_after _ = daemon

abbrev one_handed : Daemon Items
one_handed = daemon_after (recieve_processor lists answering daemon)

abbrev stopped_daemon : Daemon Items
stopped_daemon = daemon_after (stop_daemon lists one_handed)

last_act : Happens lists (λ key. key) full_settings one_handed stopped_daemon
unfolding recieve_processor receive_from send_request hand_over request_of smpp2ptree command
    deliver_sm2ptree stop_daemon stopped stop close_session do_write is_writing write_pdu pop_items
    transmit next do_unbind_request
last_act = destroyed refl

Lives-received_example :
    received lists sequence_of daemon ≤ received lists sequence_of stopped_daemon
unfolding recieve_processor receive_from send_request hand_over request_of smpp2ptree command
    deliver_sm2ptree stop_daemon stopped stop
Lives-received_example =
    Lives-received lists sequence_of {cfg = full_settings} {d = daemon} {d' = stopped_daemon}
      (later (later at_first (receives answering refl)) last_act)
