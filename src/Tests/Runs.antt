-- ===== src/Tests/Runs.antt =====
-- Runs of a session at concrete inputs.
use kiss_smpp.Session.Receive.{procpdu_bind_resp, procpdu_submit_sm_resp}
use kiss_smpp.Session.Write.{set_current_state, handle_write, w4r_q_put}
use kiss_smpp.Session.Timers.{reschedule_enquire_link}
use kiss_smpp.Session.Process.{
  process4state_open, process4state, process_in, process4state_bound_trx,
}
use kiss_smpp.Session.Handlers.{handle_read_body, w4r_q_pop}
use mathlib.Core.List.{Memᴰ}
use kiss_smpp.Common.{ℕ, zero, suc, some, ◌≡◌, refl, List, [], ◌∷◌, length, ◌+◌, true, arith}
use kiss_smpp.Smpp.{RawPdu, bind_transceiver_resp, command, submit_sm_resp}
use kiss_smpp.Smpp.Standard.{standard}
use kiss_smpp.TransmitQueue.{Items}
use kiss_smpp.Session.{
  opened, success, other_error, reading_header, reading_body, writing, Session, Outcome, ok,
}
use kiss_smpp.Session.Close.{close_connection}
use kiss_smpp.Session.Loop.{
  Event, body_read, wrote, react, here, Runs, idle, after, start_here, then, step,
}
use kiss_smpp.Session.Diagram.{view_of, run}
use kiss_smpp.Session.Diagram.Refines.{Runs-refines}
use kiss_smpp.Session.Diagram.Bound.{Grants, bound_needs_response}
use kiss_smpp.Session.Stall.{IsStalled}
use kiss_smpp.Session.Window.{full_window_stalls}
use kiss_smpp.Waiting.{AwaitingResponseMap, assign}
use kiss_smpp.Session.Winding.{AllEnds}
use kiss_smpp.Session.Winding.Down.{stop_winds_down}
use kiss_smpp.Tests.Fixture.{lists, bound, raw_pdu, no_pdus, submit}

abbrev session_of : Outcome Items → Session Items
session_of (ok s) = s
session_of _ = bound

-- The response to the bind request is read.
abbrev bind_read : Event
bind_read = body_read (raw_pdu bind_transceiver_resp 6) success

abbrev unbound_yet : Session Items
unbound_yet = record bound {
  current_state = opened;
  tasks = reading_body (raw_pdu bind_transceiver_resp 6) ∷ [];
}

abbrev now_bound : Session Items
now_bound = session_of (react lists bind_read (record unbound_yet { tasks = [] }))

binding_run : Runs lists unbound_yet (bind_read ∷ []) now_bound
unfolding react handle_read_body process4state process_in reschedule_enquire_link w4r_q_pop
    process4state_open command procpdu_bind_resp
binding_run =
    after bind_read (record unbound_yet { tasks = [] }) idle
      (raw_pdu bind_transceiver_resp 6, ([], here, refl), refl) refl

Runs-refines_example : view_of now_bound ≡ run standard (bind_read ∷ []) (view_of unbound_yet)
Runs-refines_example = Runs-refines lists binding_run

bound_needs_response_example :
    (raw : RawPdu) × Memᴰ (body_read raw success) (bind_read ∷ [])
    × Grants standard now_bound.current_state raw
unfolding react handle_read_body process4state process_in reschedule_enquire_link w4r_q_pop
    process4state_open command procpdu_bind_resp set_current_state
bound_needs_response_example = bound_needs_response lists binding_run refl refl

-- A session that is being stopped while it writes and reads.
abbrev busy : Session Items
busy = record bound { stop_flag = true; tasks = writing ∷ reading_header ∷ [] }

abbrev write_ended : Session Items
write_ended = record (close_connection lists busy) { tasks = reading_header ∷ [] }

stop_winds_down_example :
    (1 + length write_ended.tasks ≡ 2)
    × ((es : List Event) × (u : Session Items) × Runs lists write_ended es u
        × AllEnds es
        × (u.tasks ≡ []))
unfolding close_connection react set_current_state handle_write
stop_winds_down_example =
    stop_winds_down lists busy write_ended (wrote other_error ∷ []) refl
      (after (wrote other_error) write_ended idle (reading_header ∷ [], here, refl) refl) (tt, tt)

-- Requests that wait for a response: `n` of them, from the number `k` on.
abbrev requests : ℕ → ℕ → AwaitingResponseMap
requests zero k = []
requests (suc n) k = (k, record { obj = submit k; timestamp = 100 }) ∷ requests n (k + 1)

-- The response to the first of the requests.
abbrev first_response : RawPdu
first_response = raw_pdu submit_sm_resp 10

-- The tenth request was written while a message waits; a response is being read.
abbrev crowded : Session Items
crowded = record bound {
  w4r_q = requests 9 10;
  last_pop = some (submit 19);
  tx_q = record no_pdus { messages = some (submit 3) ∷ [] };
  tasks = reading_body first_response ∷ [];
}

abbrev tenth_written : Session Items
tenth_written = w4r_q_put lists (submit 19) crowded

abbrev one_answered : Session Items
one_answered =
    session_of
      (react lists (body_read first_response success) (record tenth_written { tasks = [] }))

full_window_stalls_example :
    (handle_write lists success crowded ≡ ok tenth_written)
    × IsStalled lists one_answered
    × (one_answered.sent ≡ [])
unfolding w4r_q_put assign react handle_read_body process4state process_in reschedule_enquire_link
    w4r_q_pop process4state_bound_trx command procpdu_submit_sm_resp
full_window_stalls_example =
    full_window_stalls lists (submit 19) crowded one_answered refl refl refl (omega arith) (
      then start_here (
        step (body_read first_response success) (record tenth_written { tasks = [] })
          (first_response, ([], here, refl), refl) refl))
