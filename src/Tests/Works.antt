-- ===== src/Tests/Works.antt =====
-- Whole runs at concrete inputs: from the start to the first message, a connection that comes back,
-- and the requests that wait for a response.
use kiss_smpp.Session.Handlers.{handle_connect}
use kiss_smpp.Sequence.{next}
use mathlib.Core.List.{Memᴰ}
use kiss_smpp.Common.{◌<◌, ◌≡◌, refl, List, [], ◌∷◌, length, arith, inl, some, none}
use kiss_smpp.Smpp.{
  Pdu, RawPdu, bind_transceiver_resp, bind_receiver_resp, bind_transceiver, bind_body,
  SharedSmppPdu,
}
use kiss_smpp.Smpp.Standard.{standard, standard_create}
use kiss_smpp.TransmitQueue.{Items, clear_session_queues, pop_items}
use kiss_smpp.Waiting.{TimeStampedPdu, find, assign}
use kiss_smpp.Session.Awaited.{KeepsLast, awaited_was_sent}
use kiss_smpp.Session.Close.{
  bind_fields, construct, initial, start_session, set_txq, connect, set_w4r_q_ageing_timer,
  bind_request, bind_command, do_bind_request, resolve_query, set_throttle,
}
use kiss_smpp.Session.{
  ok, bound_trx, success, eof, reading_header, writing, Session, closed, opened, connecting,
}
use kiss_smpp.Session.Write.{
  is_writing, handle_write, can_send, write_next, write_pdu, w4r_q_put, do_write, transmit,
  set_current_state,
}
use kiss_smpp.Session.Loop.{
  there, start_here, then, step, react, connected, header_read, body_read, closes, wrote, here,
  Runs, there, Step,
}
use kiss_smpp.Session.Send.{sends_bound_tx}
use kiss_smpp.Session.Recovery.{Accepts, Asks, recovers}
use kiss_smpp.Session.Flood.{IsIdle, flood, flooded}
use kiss_smpp.SendHandler.{submit_fields}
use kiss_smpp.Daemon.{Daemon}
use kiss_smpp.Daemon.Start.{started, start_daemon}
use kiss_smpp.Daemon.System.{Lives}
use kiss_smpp.Daemon.Works.{Carries, start_to_submit}
use kiss_smpp.Tests.Fixture.{lists, config, bound, submit, raw_pdu, no_pdus}
use kiss_smpp.Tests.Lives.{
  full_settings, full_config, full_config-Reads, centre, greeting, greeting_fields, no_answer,
}
use Prim.Native.String.{String}

abbrev no_buffers : String → List SharedSmppPdu
no_buffers name = []

abbrev bind_answer : RawPdu
bind_answer = raw_pdu bind_transceiver_resp 1

start_to_submit_example :
    (d d' : Daemon Items) × (start_daemon lists full_settings no_buffers no_pdus 1000 ≡ started d)
    × Lives lists (λ key. key) full_settings d d'
    × ((b m : Pdu) × (d'.session.sent ≡ m ∷ b ∷ [])
        × Asks lists full_config b
        × Carries lists greeting_fields m
        × ((w : TimeStampedPdu) × (find m.sequence_number d'.session.w4r_q ≡ some w) × (w.obj ≡ m)))
unfolding submit_fields
start_to_submit_example =
    start_to_submit lists (λ key. key) full_settings full_config no_buffers no_pdus 1000 bind_answer
      greeting no_answer greeting_fields full_config-Reads centre (λ e. cc) (λ e. cc) refl refl refl
      refl refl refl

-- A transceiver that reads the next header while a write is under way.
abbrev reading : Session Items
reading = record bound { tasks = writing ∷ reading_header ∷ [] }

bind_answer-Accepts : Accepts lists bound_trx bind_answer
bind_answer-Accepts = record {
  kind = bind_transceiver_resp;
  bound = refl;
  identifier = refl;
  status = refl;
  whole = refl;
}

recovers_example :
    (t : Session Items) × Runs lists reading
      (body_read bind_answer success
        ∷ header_read bind_answer success
        ∷ connected success
        ∷ closes
        ∷ header_read bind_answer eof
        ∷ [])
      t
    × (t.current_state ≡ bound_trx)
    × ((b : Pdu) × (t.sent ≡ b ∷ []) × Asks lists config b)
recovers_example =
    recovers lists reading bound_trx bind_answer (writing ∷ []) refl (there here) refl
      bind_answer-Accepts

bound-IsIdle : IsIdle lists bound
unfolding is_writing sends_bound_tx
bound-IsIdle = record { empty = refl; may = refl; below = tt }

flooded_example :
    (t : Session Items) × Runs lists bound (flood (submit 0) 11) t
    × IsIdle lists t
    × (length t.w4r_q ≡ 11)
    × (t.seq_num_gen ≡ 17)
flooded_example = flooded lists (submit 0) 11 bound refl (omega arith) (omega arith) bound-IsIdle

-- The session that the constructor leaves.
abbrev fresh : Session Items
fresh = record bound {
  current_state = closed;
  seq_num_gen = 1;
  throttle_next_send_time = 1000;
  start_time = 1000;
  enquire_link_timer = none;
  clock = 1000;
  tasks = connecting ∷ [];
}

fresh-New : construct lists full_settings config no_pdus [] 1000 ≡ ok fresh
unfolding construct initial start_session resolve_query set_throttle connect set_w4r_q_ageing_timer
    set_txq clear_session_queues
fresh-New = refl

abbrev bind_entry : TimeStampedPdu
bind_entry = record {
  obj = record (standard_create bind_transceiver) {
    sequence_number = 2;
    body = bind_body (bind_fields config);
  };
  timestamp = 0;
}

-- The bind request is being written.
abbrev asking : Session Items
asking = record fresh {
  current_state = opened;
  last_pop = some bind_entry.obj;
  seq_num_gen = 3;
  throttle_next_send_time = 51000;
  write_count = 1;
  tasks = reading_header ∷ writing ∷ [];
  sent = bind_entry.obj ∷ [];
}

-- It was written.
abbrev asked : Session Items
asked = record asking { w4r_q = (2, bind_entry) ∷ []; tasks = reading_header ∷ [] }

connects : Step lists fresh asking
unfolding react handle_connect do_bind_request do_write set_current_state write_pdu pop_items
    transmit bind_request next bind_command
connects = step (connected success) (record fresh { tasks = [] }) ([], here, refl) refl

writes : Step lists asking asked
unfolding react handle_write write_next can_send w4r_q_put assign
writes =
    step (wrote success) (record asking { tasks = reading_header ∷ [] }) (_, there here, refl) refl

put_back-KeepsLast : KeepsLast lists
put_back-KeepsLast q none = inl refl
put_back-KeepsLast q (some x) = inl refl

awaited_was_sent_example :
    Memᴰ bind_entry.obj asked.sent
    × (bind_entry.obj.sequence_number ≡ 2)
    × (bind_entry.obj.command_id < standard.code bind_receiver_resp)
unfolding find
awaited_was_sent_example =
    awaited_was_sent lists put_back-KeepsLast full_settings config no_pdus [] 1000 fresh asked 2
      bind_entry fresh-New (then (then start_here connects) writes) refl
