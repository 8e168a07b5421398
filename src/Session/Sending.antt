-- ===== src/Session/Sending.antt =====
-- Which PDUs send_pdu lets through, and what it does with them.
use kiss_smpp.Common.{
  ◌≡◌, refl, ◌∙◌, Bool, true, false, ◌||◌, ◌&&◌, not, some, ◌⊎◌, inl, inr, arith, Bool-cases,
  if◌then◌else◌, if_of_true, if_of_false,
}
use kiss_smpp.Smpp.{CommandId, Pdu, is_response}
use kiss_smpp.Smpp.Commands.{command_of_eq}
use kiss_smpp.TransmitQueue.{message}
use kiss_smpp.Session.{State, bound_tx, bound_rx, bound_trx, Platform, Session, ok}
use kiss_smpp.Session.Write.{do_write}
use kiss_smpp.Session.Send.{
  send_pdu, send_in, send4state_bound_tx, send4state_bound_rx, send4state_bound_trx, sends_bound_tx,
  sends_bound_rx, sends_bound_trx,
}
use kiss_smpp.Session.Overlap.{Goes, Waits, do_write_lem}

-- A transmitter sends no response, a receiver nothing but responses, and a transceiver what either
-- of the two sends.
pub sends_by_role :
    (c : CommandId)
    → (sends_bound_trx (some c) ≡ sends_bound_tx (some c) || sends_bound_rx (some c))
      × (sends_bound_tx (some c) && is_response c ≡ false)
      × (sends_bound_rx (some c) && not (is_response c) ≡ false)
unfolding sends_bound_trx sends_bound_tx sends_bound_rx is_response
sends_by_role CommandId.submit_sm = ground arith
sends_by_role _ = ground arith

-- The commands that may be sent in a state.
abbrev pub permitted : State → CommandId → Bool
permitted bound_tx c = sends_bound_tx (some c)
permitted bound_rx c = sends_bound_rx (some c)
permitted bound_trx c = sends_bound_tx (some c) || sends_bound_rx (some c)
permitted _ c = false

module _ {Q : Type 0} (platform : Platform Q) where
  open platform use {smpp}

  send_pdu_if :
      (c : CommandId) (pdu : Pdu) (s : Session Q) (p : State)
      → s.current_state ≡ p
      → pdu.command_id ≡ smpp.code c
      → send_pdu platform pdu s ≡ (if permitted p c then do_write platform pdu message s else ok s)
  unfolding send_pdu send_in send4state_bound_tx send4state_bound_rx send4state_bound_trx
  send_pdu_if c pdu s bound_tx e f = rw (e, send_pdu) (rw (command_of_eq smpp c pdu.command_id f))
  send_pdu_if c pdu s bound_rx e f = rw (e, send_pdu) (rw (command_of_eq smpp c pdu.command_id f))
  send_pdu_if c pdu s bound_trx e f =
      rw (e, send_pdu) (rw (command_of_eq smpp c pdu.command_id f) (rw (← (sends_by_role c).0)))
  send_pdu_if c pdu s _ e f = rw (e, send_pdu)

  -- send_pdu always succeeds. A command that the state permits goes out, or waits among the
  -- messages if the queue is not empty; any other is dropped, and the session is unchanged.
  pub send_pdu_lem :
      (c : CommandId) (pdu : Pdu) (s : Session Q)
      → pdu.command_id ≡ smpp.code c
      → (t : Session Q) × (send_pdu platform pdu s ≡ ok t)
        × ((permitted s.current_state c ≡ true)
              × (Goes platform pdu s t ⊎ Waits platform pdu message s t)
            ⊎ (permitted s.current_state c ≡ false) × (t ≡ s))
  send_pdu_lem c pdu s f =
      let same = send_pdu_if c pdu s s.current_state refl f in
      elim (Bool-cases (permitted s.current_state c)) [
        | inl yes_p ↦
            let (t, e, how) = do_write_lem platform pdu message s in
            (t, same ∙ if_of_true _ _ yes_p ∙ e, inl (yes_p, how))
        | inr no_p ↦ (s, same ∙ if_of_false _ _ no_p, inr (no_p, refl))
      ]
