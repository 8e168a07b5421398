-- ===== src/Session/Stable/Received.antt =====
-- What is done with a PDU that was read keeps a stable predicate, exceptions included.
use kiss_smpp.Common.{true, false, Option, none, some, ◌==◌}
use kiss_smpp.Smpp.{
  Pdu, RawPdu, Decoded, decoded, throws, CommandId, command, enquire_link, deliver_sm,
  submit_sm_resp, unbind,
}
use kiss_smpp.Session.{
  State, opened, bound_tx, bound_rx, bound_trx, unbound, closed, outbound, closing, Platform,
  Session, Action,
}
use kiss_smpp.Session.Write.{set_current_state}
use kiss_smpp.Session.Timers.{reschedule_enquire_link}
use kiss_smpp.Session.Receive.{
  with_decoded, procpdu_bind_resp, procpdu_deliver_sm, procpdu_enquire_link,
  procpdu_enquire_link_resp, procpdu_submit_sm_resp, procpdu_unbind, procpdu_unbind_resp,
  procpdu_alert_notification, procpdu_broadcast_sm_resp, procpdu_cancel_broadcast_sm_resp,
  procpdu_cancel_sm_resp, procpdu_data_sm, procpdu_data_sm_resp, procpdu_generic_nack,
  procpdu_query_broadcast_sm_resp, procpdu_query_sm_resp, procpdu_replace_sm_resp,
  procpdu_submit_multi_resp,
}
use kiss_smpp.Session.Process.{
  process4state, process_in, process4state_open, process4state_bound_tx, process4state_bound_rx,
  process4state_bound_trx, process4state_unbound, process4state_outbound, process4state_closed,
}
use kiss_smpp.Session.Stable.{After, After-and_then, After-catch, Stable, if_keeps}
use kiss_smpp.Session.Stable.Closing.{do_bind_request-After, close_session-After}

module _ {Q : Type 0} (platform : Platform Q) {P : Session Q → Type 0}
    (st : Stable platform P) where
  open platform use {smpp, queue}
  open st use {flags, receives, counts, timers, passes, starts, numbers, erases, shuts, writes}

  with_decoded-After :
      (d : Decoded) (f : Pdu → Action Q) (s : Session Q)
      → P s
      → ((pdu : Pdu) → After P (f pdu s))
      → After P (with_decoded d f s)
  with_decoded-After (decoded pdu) f s h k = k pdu
  with_decoded-After (throws e) f s h k = h

  bind_resp-After :
      (raw : RawPdu) (p : State) (s : Session Q)
      → P s
      → After P (procpdu_bind_resp platform raw p s)
  unfolding procpdu_bind_resp set_current_state
  bind_resp-After raw p s h = if_keeps P (raw.cmd_status == smpp.esme_rok) _ _ (flags s p _ _ h) h

  deliver_sm-After :
      (raw : RawPdu) (s : Session Q) → P s → After P (procpdu_deliver_sm platform raw s)
  unfolding procpdu_deliver_sm
  deliver_sm-After raw s h =
      with_decoded-After (smpp.decode deliver_sm raw) _ s h (λ pdu. writes _ _ _ (receives s pdu h))

  enquire_link-After :
      (raw : RawPdu) (s : Session Q) → P s → After P (procpdu_enquire_link platform raw s)
  unfolding procpdu_enquire_link
  enquire_link-After raw s h =
      with_decoded-After (smpp.decode enquire_link raw) _ s h (λ pdu. writes _ _ _ h)

  enquire_link_resp-After :
      (raw : RawPdu) (s : Session Q) → P s → After P (procpdu_enquire_link_resp platform raw s)
  unfolding procpdu_enquire_link_resp
  enquire_link_resp-After raw s h = timers s _ none h

  submit_sm_resp-After :
      (raw : RawPdu) (s : Session Q) → P s → After P (procpdu_submit_sm_resp platform raw s)
  unfolding procpdu_submit_sm_resp
  submit_sm_resp-After raw s h =
      if_keeps P (raw.cmd_status == smpp.esme_rok) _ _
        (with_decoded-After (smpp.decode submit_sm_resp raw) _ s h (λ pdu. h)) h

  unbind-After : (raw : RawPdu) (s : Session Q) → P s → After P (procpdu_unbind platform raw s)
  unfolding procpdu_unbind set_current_state
  unbind-After raw s h = with_decoded-After (smpp.decode unbind raw) _ s h (λ pdu.
      After-and_then P _ _ (writes _ _ _ (flags s unbound _ _ h))
        (λ t k. starts _ closing (λ e. cc) (flags t _ false true k)))

  unbind_resp-After :
      (raw : RawPdu) (s : Session Q) → P s → After P (procpdu_unbind_resp platform raw s)
  unfolding procpdu_unbind_resp set_current_state
  unbind_resp-After raw s h = close_session-After platform st false _ (flags s opened _ _ h)

  ruleset received = (
    do_bind_request-After, bind_resp-After, deliver_sm-After, enquire_link-After,
    enquire_link_resp-After, submit_sm_resp-After, unbind-After, unbind_resp-After,
  )

  open-After :
      (c : Option CommandId) (raw : RawPdu) (s : Session Q)
      → P s
      → After P (process4state_open platform c raw s)
  unfolding process4state_open procpdu_alert_notification procpdu_broadcast_sm_resp
      procpdu_cancel_broadcast_sm_resp procpdu_cancel_sm_resp procpdu_data_sm procpdu_data_sm_resp
      procpdu_generic_nack procpdu_query_broadcast_sm_resp procpdu_query_sm_resp
      procpdu_replace_sm_resp procpdu_submit_multi_resp
  open-After none raw s h = h
  open-After (some enquire_link) raw s h = enquire_link-After raw s h
  open-After (some c) raw s h = search received

  bound_tx-After :
      (c : Option CommandId) (raw : RawPdu) (s : Session Q)
      → P s
      → After P (process4state_bound_tx platform c raw s)
  unfolding process4state_bound_tx procpdu_alert_notification procpdu_broadcast_sm_resp
      procpdu_cancel_broadcast_sm_resp procpdu_cancel_sm_resp procpdu_data_sm procpdu_data_sm_resp
      procpdu_generic_nack procpdu_query_broadcast_sm_resp procpdu_query_sm_resp
      procpdu_replace_sm_resp procpdu_submit_multi_resp
  bound_tx-After none raw s h = h
  bound_tx-After (some enquire_link) raw s h = enquire_link-After raw s h
  bound_tx-After (some c) raw s h = search received

  bound_rx-After :
      (c : Option CommandId) (raw : RawPdu) (s : Session Q)
      → P s
      → After P (process4state_bound_rx platform c raw s)
  unfolding process4state_bound_rx procpdu_alert_notification procpdu_broadcast_sm_resp
      procpdu_cancel_broadcast_sm_resp procpdu_cancel_sm_resp procpdu_data_sm procpdu_data_sm_resp
      procpdu_generic_nack procpdu_query_broadcast_sm_resp procpdu_query_sm_resp
      procpdu_replace_sm_resp procpdu_submit_multi_resp
  bound_rx-After none raw s h = h
  bound_rx-After (some enquire_link) raw s h = enquire_link-After raw s h
  bound_rx-After (some c) raw s h = search received

  bound_trx-After :
      (c : Option CommandId) (raw : RawPdu) (s : Session Q)
      → P s
      → After P (process4state_bound_trx platform c raw s)
  unfolding process4state_bound_trx procpdu_alert_notification procpdu_broadcast_sm_resp
      procpdu_cancel_broadcast_sm_resp procpdu_cancel_sm_resp procpdu_data_sm procpdu_data_sm_resp
      procpdu_generic_nack procpdu_query_broadcast_sm_resp procpdu_query_sm_resp
      procpdu_replace_sm_resp procpdu_submit_multi_resp
  bound_trx-After none raw s h = h
  bound_trx-After (some enquire_link) raw s h = enquire_link-After raw s h
  bound_trx-After (some c) raw s h = search received

  unbound-After :
      (c : Option CommandId) (raw : RawPdu) (s : Session Q)
      → P s
      → After P (process4state_unbound platform c raw s)
  unfolding process4state_unbound procpdu_alert_notification procpdu_broadcast_sm_resp
      procpdu_cancel_broadcast_sm_resp procpdu_cancel_sm_resp procpdu_data_sm procpdu_data_sm_resp
      procpdu_generic_nack procpdu_query_broadcast_sm_resp procpdu_query_sm_resp
      procpdu_replace_sm_resp procpdu_submit_multi_resp
  unbound-After none raw s h = h
  unbound-After (some enquire_link) raw s h = enquire_link-After raw s h
  unbound-After (some c) raw s h = search received

  outbound-After :
      (c : Option CommandId) (raw : RawPdu) (s : Session Q)
      → P s
      → After P (process4state_outbound platform c raw s)
  unfolding process4state_outbound procpdu_alert_notification procpdu_broadcast_sm_resp
      procpdu_cancel_broadcast_sm_resp procpdu_cancel_sm_resp procpdu_data_sm procpdu_data_sm_resp
      procpdu_generic_nack procpdu_query_broadcast_sm_resp procpdu_query_sm_resp
      procpdu_replace_sm_resp procpdu_submit_multi_resp
  outbound-After none raw s h = h
  outbound-After (some enquire_link) raw s h = enquire_link-After raw s h
  outbound-After (some c) raw s h = search received

  process_in-After :
      (p : State) (c : Option CommandId) (raw : RawPdu) (s : Session Q)
      → P s
      → After P (process_in platform p c raw s)
  unfolding process_in process4state_closed
  process_in-After opened c raw s h = open-After c raw s h
  process_in-After bound_tx c raw s h = bound_tx-After c raw s h
  process_in-After bound_rx c raw s h = bound_rx-After c raw s h
  process_in-After bound_trx c raw s h = bound_trx-After c raw s h
  process_in-After unbound c raw s h = unbound-After c raw s h
  process_in-After outbound c raw s h = outbound-After c raw s h
  process_in-After closed c raw s h = h

  pub process4state-After :
      (raw : RawPdu) (s : Session Q) → P s → After P (process4state platform raw s)
  unfolding process4state reschedule_enquire_link
  process4state-After raw s h =
      After-catch P _ _
        (process_in-After s.current_state (command smpp raw.cmd_id) raw _ (timers s _ none h))
        (close_session-After platform st true)
