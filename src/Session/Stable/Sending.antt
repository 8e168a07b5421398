-- ===== src/Session/Stable/Sending.antt =====
-- send_pdu keeps what do_write keeps.
use kiss_smpp.Common.{Option}
use kiss_smpp.Smpp.{Pdu, CommandId, command}
use kiss_smpp.TransmitQueue.{Priority, message}
use kiss_smpp.Session.{State, bound_tx, bound_rx, bound_trx, Platform, Session}
use kiss_smpp.Session.Write.{do_write}
use kiss_smpp.Session.Send.{
  send_in, send_pdu, send4state_bound_tx, send4state_bound_rx, send4state_bound_trx, sends_bound_tx,
  sends_bound_rx, sends_bound_trx,
}
use kiss_smpp.Session.Stable.{After, if_keeps}

module _ {Q : Type 0} (platform : Platform Q) {P : Session Q → Type 0}
    (writes : (s : Session Q) (pdu : Pdu) (p : Priority)
      → P s
      → After P (do_write platform pdu p s)) where
  open platform use {smpp}

  pub send_pdu_keeps : (pdu : Pdu) (s : Session Q) → P s → After P (send_pdu platform pdu s)
  unfolding send_in send_pdu send4state_bound_tx send4state_bound_rx send4state_bound_trx
  send_pdu_keeps pdu s h = in_state s.current_state
    where
      c : Option CommandId
      c = command smpp pdu.command_id

      in_state : (p : State) → After P (send_in platform p pdu s)
      in_state bound_tx = if_keeps P (sends_bound_tx c) _ _ (writes s pdu message h) h
      in_state bound_rx = if_keeps P (sends_bound_rx c) _ _ (writes s pdu message h) h
      in_state bound_trx = if_keeps P (sends_bound_trx c) _ _ (writes s pdu message h) h
      in_state _ = h
