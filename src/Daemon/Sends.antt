-- ===== src/Daemon/Sends.antt =====
-- What becomes of the messages to send.
use kiss_smpp.Common.{
  ◌≡◌, refl, true, false, List, [], ◌∷◌, length, inl, inr, ◌⊎◌, ◌∙◌, if_of_true, some, none,
}
use kiss_smpp.Smpp.{Pdu, CommandId}
use kiss_smpp.TransmitQueue.{message}
use kiss_smpp.Session.{State, bound_tx, bound_rx, bound_trx, Platform, Session, ok}
use kiss_smpp.Session.Write.{is_bound}
use kiss_smpp.Session.Send.{send_pdu, send_in}
use kiss_smpp.Session.Overlap.{Goes, Waits}
use kiss_smpp.Session.Sending.{send_pdu_lem, permitted}
use kiss_smpp.Daemon.{
  Daemon, did, sending_processor, send_from, sent_to, passes, next_pass, SharedSmppPdu,
}

module _ {Q : Type 0} (platform : Platform Q) where
  open platform use {smpp}

  send_in_unbound :
      (p : State) (pdu : Pdu) (s : Session Q) → is_bound p ≡ false → send_in platform p pdu s ≡ ok s
  unfolding send_in
  send_in_unbound bound_tx pdu s h = absurd (cc)
  send_in_unbound bound_rx pdu s h = absurd (cc)
  send_in_unbound bound_trx pdu s h = absurd (cc)
  send_in_unbound _ pdu s h = refl

  send_pdu_unbound :
      (pdu : Pdu) (s : Session Q)
      → is_bound s.current_state ≡ false
      → send_pdu platform pdu s ≡ ok s
  unfolding send_pdu
  send_pdu_unbound pdu s h = send_in_unbound s.current_state pdu s h

  pub sending_processor_on :
      (d : Daemon Q)
      → d.running ≡ true
      → sending_processor platform d ≡ send_from platform d.sending_buffer d
  unfolding sending_processor
  sending_processor_on d on = if_of_true _ _ on

  -- While the daemon runs and the session is not bound, the passes of sendingProcessor take every
  -- PDU from the sending buffer, and none of them reaches the session: all are lost.
  pub sending_loses :
      (q : List SharedSmppPdu) (d : Daemon Q)
      → d.running ≡ true
      → is_bound d.session.current_state ≡ false
      → passes (sending_processor platform) (length q) (record d { sending_buffer = q })
        ≡ did (record d { sending_buffer = [] })
  unfolding passes next_pass send_from sent_to
  sending_loses [] d on h = refl
  sending_loses (none ∷ xs) d on h =
      rw (sending_processor_on (record d { sending_buffer = none ∷ xs }) on)
        (sending_loses xs d on h)
  sending_loses (some x ∷ xs) d on h =
      rw (sending_processor_on (record d { sending_buffer = some x ∷ xs }) on)
        (rw (send_pdu_unbound x d.session h) (sending_loses xs d on h))

  -- A pass of sendingProcessor, in a daemon that runs, over a PDU that the state of the session
  -- permits: it is the first of the sending buffer, and goes out or waits among the messages of the
  -- session.
  pub sending_passes :
      (c : CommandId) (pdu : Pdu) (rest : List SharedSmppPdu) (d : Daemon Q)
      → d.running ≡ true
      → d.sending_buffer ≡ some pdu ∷ rest
      → pdu.command_id ≡ smpp.code c
      → permitted d.session.current_state c ≡ true
      → (t : Session Q) × (sending_processor platform d
          ≡ did (record d { sending_buffer = rest; session = t }))
        × (Goes platform pdu d.session t ⊎ Waits platform pdu message d.session t)
  unfolding send_from sent_to
  sending_passes c pdu rest d on e f may =
      let (t, r, how) = send_pdu_lem platform c pdu d.session f in
      (
        t,
        sending_processor_on d on ∙ rw e (rw r refl),
        elim how [ inl (_, h) ↦ h | inr (denied, _) ↦ absurd (cc) ],
      )
