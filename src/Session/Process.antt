-- ===== src/Session/Process.antt =====
-- The dispatch of a PDU on the session's state and its command identifier: process4state and the
-- functions that it calls, of ksmppc/src/session_manager.cpp. Each `switch` on `cmd_id` is a
-- function on the label that the number takes, or `none`.
use kiss_smpp.Common.{some, Option, true}
use kiss_smpp.Smpp.{
  CommandId, RawPdu, command, alert_notification, bind_receiver_resp, bind_transceiver_resp,
  bind_transmitter_resp, broadcast_sm_resp, cancel_broadcast_sm_resp, cancel_sm_resp, data_sm,
  data_sm_resp, deliver_sm, enquire_link, enquire_link_resp, generic_nack, outbind,
  query_broadcast_sm_resp, query_sm_resp, replace_sm_resp, submit_multi_resp, submit_sm_resp,
  unbind, unbind_resp,
}
use kiss_smpp.Session.{
  State, opened, bound_tx, bound_rx, bound_trx, unbound, closed, outbound, Platform, ok, Action,
  catch_runtime,
}
use kiss_smpp.Session.Close.{do_bind_request, close_session}
use kiss_smpp.Session.Timers.{reschedule_enquire_link}
use kiss_smpp.Session.Receive.{
  procpdu_alert_notification, procpdu_bind_resp, procpdu_broadcast_sm_resp,
  procpdu_cancel_broadcast_sm_resp, procpdu_cancel_sm_resp, procpdu_data_sm, procpdu_data_sm_resp,
  procpdu_deliver_sm, procpdu_enquire_link, procpdu_enquire_link_resp, procpdu_generic_nack,
  procpdu_query_broadcast_sm_resp, procpdu_query_sm_resp, procpdu_replace_sm_resp,
  procpdu_submit_multi_resp, procpdu_submit_sm_resp, procpdu_unbind, procpdu_unbind_resp,
}

module _ {Q : Type 0} (platform : Platform Q) where
  open platform use {smpp}

  unfoldable pub process4state_open : Option CommandId → RawPdu → Action Q
  process4state_open (some bind_receiver_resp) raw s = procpdu_bind_resp platform raw bound_rx s
  process4state_open (some bind_transmitter_resp) raw s = procpdu_bind_resp platform raw bound_tx s
  process4state_open (some bind_transceiver_resp) raw s = procpdu_bind_resp platform raw bound_trx s
  process4state_open (some enquire_link) raw s = procpdu_enquire_link platform raw s
  process4state_open (some enquire_link_resp) raw s = procpdu_enquire_link_resp platform raw s
  process4state_open (some generic_nack) raw s = procpdu_generic_nack raw s
  process4state_open (some outbind) raw s = do_bind_request platform s
  process4state_open _ raw s = ok s

  unfoldable pub process4state_bound_tx : Option CommandId → RawPdu → Action Q
  process4state_bound_tx (some broadcast_sm_resp) raw s = procpdu_broadcast_sm_resp raw s
  process4state_bound_tx (some cancel_broadcast_sm_resp) raw s =
      procpdu_cancel_broadcast_sm_resp raw s
  process4state_bound_tx (some cancel_sm_resp) raw s = procpdu_cancel_sm_resp raw s
  process4state_bound_tx (some data_sm_resp) raw s = procpdu_data_sm_resp raw s
  process4state_bound_tx (some query_broadcast_sm_resp) raw s =
      procpdu_query_broadcast_sm_resp raw s
  process4state_bound_tx (some query_sm_resp) raw s = procpdu_query_sm_resp raw s
  process4state_bound_tx (some replace_sm_resp) raw s = procpdu_replace_sm_resp raw s
  process4state_bound_tx (some submit_multi_resp) raw s = procpdu_submit_multi_resp raw s
  process4state_bound_tx (some submit_sm_resp) raw s = procpdu_submit_sm_resp platform raw s
  process4state_bound_tx (some unbind) raw s = procpdu_unbind platform raw s
  process4state_bound_tx (some unbind_resp) raw s = procpdu_unbind_resp platform raw s
  process4state_bound_tx (some enquire_link) raw s = procpdu_enquire_link platform raw s
  process4state_bound_tx (some enquire_link_resp) raw s = procpdu_enquire_link_resp platform raw s
  process4state_bound_tx (some generic_nack) raw s = procpdu_generic_nack raw s
  process4state_bound_tx _ raw s = ok s

  unfoldable pub process4state_bound_rx : Option CommandId → RawPdu → Action Q
  process4state_bound_rx (some alert_notification) raw s = procpdu_alert_notification raw s
  process4state_bound_rx (some data_sm) raw s = procpdu_data_sm raw s
  process4state_bound_rx (some deliver_sm) raw s = procpdu_deliver_sm platform raw s
  process4state_bound_rx (some enquire_link) raw s = procpdu_enquire_link platform raw s
  process4state_bound_rx (some enquire_link_resp) raw s = procpdu_enquire_link_resp platform raw s
  process4state_bound_rx (some generic_nack) raw s = procpdu_generic_nack raw s
  process4state_bound_rx (some unbind) raw s = procpdu_unbind platform raw s
  process4state_bound_rx (some unbind_resp) raw s = procpdu_unbind_resp platform raw s
  process4state_bound_rx _ raw s = ok s

  unfoldable pub process4state_bound_trx : Option CommandId → RawPdu → Action Q
  process4state_bound_trx (some alert_notification) raw s = procpdu_alert_notification raw s
  process4state_bound_trx (some broadcast_sm_resp) raw s = procpdu_broadcast_sm_resp raw s
  process4state_bound_trx (some cancel_broadcast_sm_resp) raw s =
      procpdu_cancel_broadcast_sm_resp raw s
  process4state_bound_trx (some cancel_sm_resp) raw s = procpdu_cancel_sm_resp raw s
  process4state_bound_trx (some data_sm) raw s = procpdu_data_sm raw s
  process4state_bound_trx (some data_sm_resp) raw s = procpdu_data_sm_resp raw s
  process4state_bound_trx (some deliver_sm) raw s = procpdu_deliver_sm platform raw s
  process4state_bound_trx (some query_broadcast_sm_resp) raw s =
      procpdu_query_broadcast_sm_resp raw s
  process4state_bound_trx (some query_sm_resp) raw s = procpdu_query_sm_resp raw s
  process4state_bound_trx (some replace_sm_resp) raw s = procpdu_replace_sm_resp raw s
  process4state_bound_trx (some submit_multi_resp) raw s = procpdu_submit_multi_resp raw s
  process4state_bound_trx (some submit_sm_resp) raw s = procpdu_submit_sm_resp platform raw s
  process4state_bound_trx (some enquire_link) raw s = procpdu_enquire_link platform raw s
  process4state_bound_trx (some enquire_link_resp) raw s = procpdu_enquire_link_resp platform raw s
  process4state_bound_trx (some generic_nack) raw s = procpdu_generic_nack raw s
  process4state_bound_trx (some unbind) raw s = procpdu_unbind platform raw s
  process4state_bound_trx (some unbind_resp) raw s = procpdu_unbind_resp platform raw s
  process4state_bound_trx _ raw s = ok s

  unfoldable pub process4state_unbound : Option CommandId → RawPdu → Action Q
  process4state_unbound (some enquire_link) raw s = procpdu_enquire_link platform raw s
  process4state_unbound (some enquire_link_resp) raw s = procpdu_enquire_link_resp platform raw s
  process4state_unbound (some generic_nack) raw s = procpdu_generic_nack raw s
  process4state_unbound _ raw s = ok s

  unfoldable pub process4state_outbound : Option CommandId → RawPdu → Action Q
  process4state_outbound (some bind_receiver_resp) raw s = procpdu_bind_resp platform raw bound_rx s
  process4state_outbound (some bind_transmitter_resp) raw s =
      procpdu_bind_resp platform raw bound_tx s
  process4state_outbound (some bind_transceiver_resp) raw s =
      procpdu_bind_resp platform raw bound_trx s
  process4state_outbound (some enquire_link) raw s = procpdu_enquire_link platform raw s
  process4state_outbound (some enquire_link_resp) raw s = procpdu_enquire_link_resp platform raw s
  process4state_outbound (some generic_nack) raw s = procpdu_generic_nack raw s
  process4state_outbound _ raw s = ok s

  unfoldable pub process4state_closed : Option CommandId → RawPdu → Action Q
  process4state_closed c raw s = ok s

  unfoldable pub process_in : State → Option CommandId → RawPdu → Action Q
  process_in bound_tx c raw s = process4state_bound_tx c raw s
  process_in bound_rx c raw s = process4state_bound_rx c raw s
  process_in bound_trx c raw s = process4state_bound_trx c raw s
  process_in opened c raw s = process4state_open c raw s
  process_in outbound c raw s = process4state_outbound c raw s
  process_in unbound c raw s = process4state_unbound c raw s
  process_in closed c raw s = process4state_closed c raw s

  unfoldable pub process4state : RawPdu → Action Q
  process4state raw s =
      let t = reschedule_enquire_link s in
      catch_runtime (process_in t.current_state (command smpp raw.cmd_id) raw t)
        (close_session platform true)
