-- ===== src/Session/Send.antt =====
-- send_pdu of ksmppc/src/session_manager.cpp: which PDUs each state lets through to the queue.
use kiss_smpp.Common.{Bool, true, false, Option, some, if◌then◌else◌}
use kiss_smpp.Smpp.{
  Pdu, CommandId, command, broadcast_sm, cancel_broadcast_sm, cancel_sm, data_sm,
  query_broadcast_sm, query_sm, replace_sm, submit_multi, submit_sm, data_sm_resp, deliver_sm_resp,
}
use kiss_smpp.TransmitQueue.{message}
use kiss_smpp.Session.{State, bound_tx, bound_rx, bound_trx, Platform, ok, Action}
use kiss_smpp.Session.Write.{do_write}

-- The labels of the `switch` of each state. `none` is a number that is no identifier.
unfoldable pub sends_bound_tx : Option CommandId → Bool
sends_bound_tx (some broadcast_sm) = true
sends_bound_tx (some cancel_broadcast_sm) = true
sends_bound_tx (some cancel_sm) = true
sends_bound_tx (some data_sm) = true
sends_bound_tx (some query_broadcast_sm) = true
sends_bound_tx (some query_sm) = true
sends_bound_tx (some replace_sm) = true
sends_bound_tx (some submit_multi) = true
sends_bound_tx (some submit_sm) = true
sends_bound_tx _ = false

unfoldable pub sends_bound_rx : Option CommandId → Bool
sends_bound_rx (some data_sm_resp) = true
sends_bound_rx (some deliver_sm_resp) = true
sends_bound_rx _ = false

unfoldable pub sends_bound_trx : Option CommandId → Bool
sends_bound_trx (some broadcast_sm) = true
sends_bound_trx (some cancel_broadcast_sm) = true
sends_bound_trx (some cancel_sm) = true
sends_bound_trx (some data_sm) = true
sends_bound_trx (some data_sm_resp) = true
sends_bound_trx (some deliver_sm_resp) = true
sends_bound_trx (some query_broadcast_sm) = true
sends_bound_trx (some query_sm) = true
sends_bound_trx (some replace_sm) = true
sends_bound_trx (some submit_multi) = true
sends_bound_trx (some submit_sm) = true
sends_bound_trx _ = false

module _ {Q : Type 0} (platform : Platform Q) where
  open platform use {smpp}

  unfoldable pub send4state_bound_tx : Pdu → Action Q
  send4state_bound_tx pdu s =
      if sends_bound_tx (command smpp pdu.command_id) then do_write platform pdu message s else ok s

  unfoldable pub send4state_bound_rx : Pdu → Action Q
  send4state_bound_rx pdu s =
      if sends_bound_rx (command smpp pdu.command_id) then do_write platform pdu message s else ok s

  unfoldable pub send4state_bound_trx : Pdu → Action Q
  send4state_bound_trx pdu s =
      if sends_bound_trx (command smpp pdu.command_id)
      then do_write platform pdu message s
      else ok s

  unfoldable pub send_in : State → Pdu → Action Q
  send_in bound_tx pdu s = send4state_bound_tx pdu s
  send_in bound_rx pdu s = send4state_bound_rx pdu s
  send_in bound_trx pdu s = send4state_bound_trx pdu s
  send_in _ pdu s = ok s

  unfoldable pub send_pdu : Pdu → Action Q
  unfolding send_in
  send_pdu pdu s = send_in s.current_state pdu s
