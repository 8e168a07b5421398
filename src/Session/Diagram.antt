-- ===== src/Session/Diagram.antt =====
-- The states of a session as the protocol sees them: a small machine over the events of the
-- io_service, independent of queues, timers and tasks, which the session refines.
pub mod Writes
pub mod Handled
pub mod Reads
pub mod Refines
pub mod Bound
use kiss_smpp.Common.{
  ◌==◌, Bool, true, false, ◌&&◌, Option, none, some, List, [], ◌∷◌, if◌then◌else◌,
}
use kiss_smpp.Smpp.{
  Smpp, RawPdu, Decoded, decoded, throws, CommandId, command, bind_receiver_resp,
  bind_transmitter_resp, bind_transceiver_resp, unbind, unbind_resp,
}
use kiss_smpp.Session.{
  State, opened, bound_tx, bound_rx, bound_trx, unbound, closed, outbound, ErrorCode, success, eof,
  Session,
}
use kiss_smpp.Session.Write.{is_bound}
use kiss_smpp.Session.Loop.{Event, connected, wrote, header_read, body_read, closes, stops}

-- What of a session the machine sees.
pub record View : Type 0 where
  pub state : State
  pub stopping : Bool

abbrev pub view_of : {Q : Type 0} → Session Q → View
view_of s = record { state = s.current_state; stopping = s.stop_flag }

-- What a PDU asks of the state.
pub data Verb : Type 0 where
  binds : State → Verb
  asks_unbind grants_unbind neutral : Verb

abbrev pub verb_of : Option CommandId → Verb
verb_of (some bind_receiver_resp) = binds bound_rx
verb_of (some bind_transmitter_resp) = binds bound_tx
verb_of (some bind_transceiver_resp) = binds bound_trx
verb_of (some unbind) = asks_unbind
verb_of (some unbind_resp) = grants_unbind
verb_of _ = neutral

abbrev pub may_bind : State → Bool
may_bind opened = true
may_bind outbound = true
may_bind _ = false

abbrev pub is_decoded : Decoded → Bool
is_decoded (decoded pdu) = true
is_decoded (throws e) = false

-- A PDU that was read binds the session, or ends the binding.
abbrev pub obey : Smpp → RawPdu → Verb → View → View
obey smpp raw (binds p) v =
    if may_bind v.state && raw.cmd_status == smpp.esme_rok then record v { state = p } else v
obey smpp raw asks_unbind v =
    if is_bound v.state && is_decoded (smpp.decode unbind raw)
    then record { state = unbound; stopping = false }
    else v
obey smpp raw grants_unbind v = if is_bound v.state then record v { state = opened } else v
obey smpp raw neutral v = v

-- An operation failed in a way that closes the session, unless it is being stopped.
abbrev pub fail : View → View
fail v = if v.stopping then v else record v { state = closed }

-- A read that fails by the end of the stream closes the session.
abbrev pub fail_read : ErrorCode → View → View
fail_read eof v = fail v
fail_read e v = v

abbrev pub next : Smpp → Event → View → View
next smpp (connected success) v = record v { state = opened }
next smpp (wrote success) v = v
next smpp (wrote e) v = fail v
next smpp (header_read raw e) v = fail_read e v
next smpp (body_read raw success) v = obey smpp raw (verb_of (command smpp raw.cmd_id)) v
next smpp (body_read raw e) v = fail_read e v
next smpp closes v = record v { state = closed }
next smpp stops v = record v { stopping = true }
next smpp _ v = v

-- The events of a run, the latest first.
abbrev pub run : Smpp → List Event → View → View
run smpp [] v = v
run smpp (e ∷ es) v = next smpp e (run smpp es v)
