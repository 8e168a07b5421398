-- ===== src/Tests/Restarts.antt =====
-- A restart at concrete inputs.
use kiss_smpp.Common.{ℕ, ◌≡◌, refl, some, List, [], ◌∷◌, if◌then◌else◌}
use kiss_smpp.Smpp.{SharedSmppPdu, submit_sm, deliver_sm, command, submit_sm_resp}
use kiss_smpp.Smpp.Standard.{standard}
use kiss_smpp.TransmitQueue.{Items, clear_session_queues}
use kiss_smpp.Coder.{encode, decode, decode_as}
use kiss_smpp.Session.{Platform}
use kiss_smpp.Session.Close.{
  queue_name, construct, initial, start_session, set_txq, connect, set_w4r_q_ageing_timer,
  resolve_query, set_throttle,
}
use kiss_smpp.Daemon.{Daemon, sending_processor, send_from, sent_to}
use kiss_smpp.Daemon.Start.{
  started, start_daemon, Started, start_sessions, with_session, construct_queues, register_handlers,
  register_as, register_for,
}
use kiss_smpp.Daemon.Stuck.{never_writes}
use kiss_smpp.Daemon.System.{later, at_first, sends}
use kiss_smpp.Session.Send.{send_pdu, send_in}
use kiss_smpp.Config.{session_config, make_bind_type, make_interface_version}
use kiss_smpp.Daemon.Starts.{FindsCentre}
use kiss_smpp.Daemon.Restart.{Persisted, restart_keeps}
use kiss_smpp.Tests.Fixture.{lists, bound, no_pdus, parsed}
use kiss_smpp.Tests.Lives.{full_settings, full_config, full_config-Reads}
use kiss_smpp.Tests.Passes.{daemon}
use kiss_smpp.Tests.Process.{header_coder}
use Prim.Native.String.{String}
use text.Mathlib.Text.{◌==◌ as str_eq}

abbrev to_send : List SharedSmppPdu
to_send = some (parsed submit_sm 7) ∷ some (parsed submit_sm 8) ∷ []

abbrev arrived : List SharedSmppPdu
arrived = some (parsed deliver_sm 1) ∷ []

abbrev waiting : List SharedSmppPdu
waiting = some (parsed submit_sm 3) ∷ []

-- The daemon that stopped, with a response that was not sent.
abbrev before : Daemon Items
before = record daemon {
  sending_buffer = to_send;
  session = record bound {
    rx_q = arrived;
    tx_q = record no_pdus { responses = some (parsed submit_sm_resp 2) ∷ []; messages = waiting };
  };
}

abbrev opened_buffers : String → List SharedSmppPdu
opened_buffers name =
    if str_eq name "sendingBuffer"
    then to_send
    else if str_eq name "recieveBuffer"
    then arrived
    else []

abbrev disk : String → List (List ℕ)
disk name =
    if str_eq name "sendingBuffer"
    then (standard.code submit_sm ∷ 0 ∷ 7 ∷ []) ∷ (standard.code submit_sm ∷ 0 ∷ 8 ∷ []) ∷ []
    else if str_eq name "recieveBuffer"
    then (standard.code deliver_sm ∷ 0 ∷ 1 ∷ []) ∷ []
    else if str_eq name "rcv_errBuffer"
    then []
    else (standard.code submit_sm ∷ 0 ∷ 3 ∷ []) ∷ []

abbrev persistent : Platform Items
persistent = record lists { open_queue = λ name. before.session.tx_q }

to_send-Persisted : Persisted persistent header_coder to_send to_send (disk "sendingBuffer")
unfolding encode decode decode_as command
to_send-Persisted = record {
  written = ((submit_sm, refl, refl), refl, ((submit_sm, refl, refl), refl, tt));
  read = (refl, (refl, tt));
}

arrived-Persisted : Persisted persistent header_coder arrived arrived (disk "recieveBuffer")
unfolding encode decode decode_as command
arrived-Persisted = record { written = ((deliver_sm, refl, refl), refl, tt); read = (refl, tt) }

waiting-Persisted :
    Persisted persistent header_coder waiting waiting (disk (queue_name full_config.type_of_bind))
unfolding encode decode decode_as command queue_name
waiting-Persisted = record { written = ((submit_sm, refl, refl), refl, tt); read = (refl, tt) }

abbrev persistent_centre : FindsCentre persistent full_settings
persistent_centre = record {
  host = "ksmppc";
  port = "ksmppc";
  host_set = refl;
  port_set = refl;
  found = refl;
}

restart_keeps_example :
    (d' : Daemon Items) × (start_daemon persistent full_settings opened_buffers no_pdus 1000
      ≡ started d')
    × (d'.session.rx_q ≡ arrived)
    × (d'.sending_buffer ≡ to_send)
    × (d'.rcv_err_buffer ≡ [])
    × (d'.session.tx_q ≡ record { sessions = []; responses = []; messages = waiting })
restart_keeps_example =
    restart_keeps persistent header_coder full_settings full_config opened_buffers no_pdus 1000
      before disk full_config-Reads persistent_centre (λ e. cc) arrived-Persisted to_send-Persisted
      (record { written = tt; read = tt }) waiting-Persisted

abbrev daemon_from : Started Items → Daemon Items
daemon_from (started d) = d
daemon_from _ = before

abbrev restarted : Daemon Items
restarted = daemon_from (start_daemon persistent full_settings opened_buffers no_pdus 1000)

-- The first message to send is taken and dropped.
abbrev restarted_later : Daemon Items
restarted_later = record restarted { sending_buffer = some (parsed submit_sm 8) ∷ [] }

never_writes_example : restarted_later.session.sent ≡ []
unfolding start_daemon start_sessions with_session construct_queues register_handlers register_as
    register_for session_config make_bind_type make_interface_version construct initial
    start_session resolve_query set_throttle set_txq connect set_w4r_q_ageing_timer
    sending_processor send_from sent_to send_pdu send_in clear_session_queues queue_name
never_writes_example =
    never_writes persistent (λ key. key) full_settings full_config opened_buffers no_pdus 1000
      restarted restarted_later full_config-Reads (λ e. cc) refl refl (later at_first (sends refl))
