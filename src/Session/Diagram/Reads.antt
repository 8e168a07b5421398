-- ===== src/Session/Diagram/Reads.antt =====
-- A PDU that is read moves the state as the machine says, in each state of the session.
use kiss_smpp.Common.{Bool, Option, none, some}
use kiss_smpp.Smpp.{
  RawPdu, CommandId, unbind, enquire_link, enquire_link, unbind_resp, bind_receiver_resp,
  bind_transmitter_resp, bind_transceiver_resp,
}
use kiss_smpp.Session.{
  State, opened, bound_tx, bound_rx, bound_trx, unbound, closed, outbound, Platform, Session,
}
use kiss_smpp.Session.Receive.{
  procpdu_alert_notification, procpdu_broadcast_sm_resp, procpdu_cancel_broadcast_sm_resp,
  procpdu_cancel_sm_resp, procpdu_data_sm, procpdu_data_sm_resp, procpdu_generic_nack,
  procpdu_query_broadcast_sm_resp, procpdu_query_sm_resp, procpdu_replace_sm_resp,
  procpdu_submit_multi_resp,
}
use kiss_smpp.Session.Process.{
  process_in, process4state_open, process4state_bound_tx, process4state_bound_rx,
  process4state_bound_trx, process4state_unbound, process4state_outbound, process4state_closed,
}
use kiss_smpp.Session.Stable.{After}
use kiss_smpp.Session.Diagram.{Verb, verb_of, obey, binds}
use kiss_smpp.Session.Diagram.Writes.{Shows, do_bind_request-Shows}
use kiss_smpp.Session.Diagram.Handled.{
  deliver_sm-Shows, enquire_link-Shows, enquire_link_resp-Shows, submit_sm_resp-Shows,
  bind_resp-Shows, unbind-Shows, unbind_resp-Shows,
}

ruleset shown = (
  do_bind_request-Shows, bind_resp-Shows, deliver_sm-Shows, enquire_link-Shows,
  enquire_link_resp-Shows, submit_sm_resp-Shows, unbind-Shows, unbind_resp-Shows,
)

module _ {Q : Type 0} (platform : Platform Q) where
  open platform use {smpp}

  open-Shows :
      (c : Option CommandId) (raw : RawPdu) (b : Bool) (s : Session Q)
      → Shows (record { state = opened; stopping = b }) s
      → After
          (Shows (obey smpp raw (verb_of c) (record { state = opened; stopping = b })))
          (process4state_open platform c raw s)
  unfolding process4state_open procpdu_alert_notification procpdu_broadcast_sm_resp
      procpdu_cancel_broadcast_sm_resp procpdu_cancel_sm_resp procpdu_data_sm procpdu_data_sm_resp
      procpdu_generic_nack procpdu_query_broadcast_sm_resp procpdu_query_sm_resp
      procpdu_replace_sm_resp procpdu_submit_multi_resp
  open-Shows none raw b s h = h
  open-Shows (some enquire_link) raw b s h = enquire_link-Shows platform raw _ s h
  open-Shows (some bind_receiver_resp) raw b s h = bind_resp-Shows platform _ raw _ s h
  open-Shows (some bind_transmitter_resp) raw b s h = bind_resp-Shows platform _ raw _ s h
  open-Shows (some bind_transceiver_resp) raw b s h = bind_resp-Shows platform _ raw _ s h
  open-Shows (some c) raw b s h = search shown

  outbound-Shows :
      (c : Option CommandId) (raw : RawPdu) (b : Bool) (s : Session Q)
      → Shows (record { state = outbound; stopping = b }) s
      → After
          (Shows (obey smpp raw (verb_of c) (record { state = outbound; stopping = b })))
          (process4state_outbound platform c raw s)
  unfolding process4state_outbound procpdu_alert_notification procpdu_broadcast_sm_resp
      procpdu_cancel_broadcast_sm_resp procpdu_cancel_sm_resp procpdu_data_sm procpdu_data_sm_resp
      procpdu_generic_nack procpdu_query_broadcast_sm_resp procpdu_query_sm_resp
      procpdu_replace_sm_resp procpdu_submit_multi_resp
  outbound-Shows none raw b s h = h
  outbound-Shows (some enquire_link) raw b s h = enquire_link-Shows platform raw _ s h
  outbound-Shows (some bind_receiver_resp) raw b s h = bind_resp-Shows platform _ raw _ s h
  outbound-Shows (some bind_transmitter_resp) raw b s h = bind_resp-Shows platform _ raw _ s h
  outbound-Shows (some bind_transceiver_resp) raw b s h = bind_resp-Shows platform _ raw _ s h
  outbound-Shows (some c) raw b s h = search shown

  bound_tx-Shows :
      (c : Option CommandId) (raw : RawPdu) (b : Bool) (s : Session Q)
      → Shows (record { state = bound_tx; stopping = b }) s
      → After
          (Shows (obey smpp raw (verb_of c) (record { state = bound_tx; stopping = b })))
          (process4state_bound_tx platform c raw s)
  unfolding process4state_bound_tx procpdu_alert_notification procpdu_broadcast_sm_resp
      procpdu_cancel_broadcast_sm_resp procpdu_cancel_sm_resp procpdu_data_sm procpdu_data_sm_resp
      procpdu_generic_nack procpdu_query_broadcast_sm_resp procpdu_query_sm_resp
      procpdu_replace_sm_resp procpdu_submit_multi_resp
  bound_tx-Shows none raw b s h = h
  bound_tx-Shows (some enquire_link) raw b s h = enquire_link-Shows platform raw _ s h
  bound_tx-Shows (some unbind) raw b s h = unbind-Shows platform raw _ s h
  bound_tx-Shows (some unbind_resp) raw b s h = unbind_resp-Shows platform raw _ s h
  bound_tx-Shows (some c) raw b s h = search shown

  bound_rx-Shows :
      (c : Option CommandId) (raw : RawPdu) (b : Bool) (s : Session Q)
      → Shows (record { state = bound_rx; stopping = b }) s
      → After
          (Shows (obey smpp raw (verb_of c) (record { state = bound_rx; stopping = b })))
          (process4state_bound_rx platform c raw s)
  unfolding process4state_bound_rx procpdu_alert_notification procpdu_broadcast_sm_resp
      procpdu_cancel_broadcast_sm_resp procpdu_cancel_sm_resp procpdu_data_sm procpdu_data_sm_resp
      procpdu_generic_nack procpdu_query_broadcast_sm_resp procpdu_query_sm_resp
      procpdu_replace_sm_resp procpdu_submit_multi_resp
  bound_rx-Shows none raw b s h = h
  bound_rx-Shows (some enquire_link) raw b s h = enquire_link-Shows platform raw _ s h
  bound_rx-Shows (some unbind) raw b s h = unbind-Shows platform raw _ s h
  bound_rx-Shows (some unbind_resp) raw b s h = unbind_resp-Shows platform raw _ s h
  bound_rx-Shows (some c) raw b s h = search shown

  bound_trx-Shows :
      (c : Option CommandId) (raw : RawPdu) (b : Bool) (s : Session Q)
      → Shows (record { state = bound_trx; stopping = b }) s
      → After
          (Shows (obey smpp raw (verb_of c) (record { state = bound_trx; stopping = b })))
          (process4state_bound_trx platform c raw s)
  unfolding process4state_bound_trx procpdu_alert_notification procpdu_broadcast_sm_resp
      procpdu_cancel_broadcast_sm_resp procpdu_cancel_sm_resp procpdu_data_sm procpdu_data_sm_resp
      procpdu_generic_nack procpdu_query_broadcast_sm_resp procpdu_query_sm_resp
      procpdu_replace_sm_resp procpdu_submit_multi_resp
  bound_trx-Shows none raw b s h = h
  bound_trx-Shows (some enquire_link) raw b s h = enquire_link-Shows platform raw _ s h
  bound_trx-Shows (some unbind) raw b s h = unbind-Shows platform raw _ s h
  bound_trx-Shows (some unbind_resp) raw b s h = unbind_resp-Shows platform raw _ s h
  bound_trx-Shows (some c) raw b s h = search shown

  unbound-Shows :
      (c : Option CommandId) (raw : RawPdu) (b : Bool) (s : Session Q)
      → Shows (record { state = unbound; stopping = b }) s
      → After
          (Shows (obey smpp raw (verb_of c) (record { state = unbound; stopping = b })))
          (process4state_unbound platform c raw s)
  unfolding process4state_unbound procpdu_alert_notification procpdu_broadcast_sm_resp
      procpdu_cancel_broadcast_sm_resp procpdu_cancel_sm_resp procpdu_data_sm procpdu_data_sm_resp
      procpdu_generic_nack procpdu_query_broadcast_sm_resp procpdu_query_sm_resp
      procpdu_replace_sm_resp procpdu_submit_multi_resp
  unbound-Shows none raw b s h = h
  unbound-Shows (some enquire_link) raw b s h = enquire_link-Shows platform raw _ s h
  unbound-Shows (some c) raw b s h = search shown

  -- What process4state calls, in any state, moves the state as the machine does.
  pub process_in-Shows :
      (p : State) (c : Option CommandId) (raw : RawPdu) (b : Bool) (s : Session Q)
      → Shows (record { state = p; stopping = b }) s
      → After
          (Shows (obey smpp raw (verb_of c) (record { state = p; stopping = b })))
          (process_in platform p c raw s)
  unfolding process_in process4state_closed
  process_in-Shows opened c raw b s h = open-Shows c raw b s h
  process_in-Shows bound_tx c raw b s h = bound_tx-Shows c raw b s h
  process_in-Shows bound_rx c raw b s h = bound_rx-Shows c raw b s h
  process_in-Shows bound_trx c raw b s h = bound_trx-Shows c raw b s h
  process_in-Shows unbound c raw b s h = unbound-Shows c raw b s h
  process_in-Shows outbound c raw b s h = outbound-Shows c raw b s h
  process_in-Shows closed c raw b s h = closed_obeys (verb_of c)
    where
      closed_obeys :
          (x : Verb) → Shows (obey smpp raw x (record { state = closed; stopping = b })) s
      closed_obeys (binds q) = h
      closed_obeys _ = h
