-- ===== src/Session/Window.antt =====
-- The window of ten requests without a response, which canSend looks at and handle_write only.
use kiss_smpp.Common.{sym, subst, ◌≡◌, ◌≤◌, refl, ◌∙◌, ap, false, some, arith, length}
use kiss_smpp.Smpp.{Pdu}
use kiss_smpp.TransmitQueue.Lists.{HasMessages}
use kiss_smpp.Session.{success, Platform, Session, ok}
use kiss_smpp.Session.Write.{can_send, w4r_q_put, write_next, written, handle_write}
use kiss_smpp.Session.Loop.{Reach}
use kiss_smpp.Session.Tasks.{in_flight}
use kiss_smpp.Session.Stall.{IsStalled, Reach-IsStalled}

module _ {Q : Type 0} (platform : Platform Q) where
  open platform use {queue}

  full-can_send : (s : Session Q) → 10 ≤ length s.w4r_q → can_send s ≡ false
  unfolding can_send
  full-can_send s h = ground arith

  write_next_full : (s : Session Q) → 10 ≤ length s.w4r_q → write_next platform s ≡ ok s
  unfolding write_next
  write_next_full s h = rw (full-can_send s h) refl

  put-same :
      (pdu : Pdu) (s : Session Q)
      → ((w4r_q_put platform pdu s).tx_q ≡ s.tx_q)
        × ((w4r_q_put platform pdu s).tasks ≡ s.tasks)
        × ((w4r_q_put platform pdu s).sent ≡ s.sent)
  unfolding w4r_q_put
  put-same pdu s = ground arith

  -- If a write ends well while messages wait and no other write is under way, and its PDU makes ten
  -- entries in the map of the requests without a response, then handle_write writes nothing and
  -- ends in a session from which every session that is reached, whatever responses are read, is
  -- stalled and has written nothing more.
  pub full_window_stalls :
      (pdu : Pdu) (s u : Session Q)
      → s.last_pop ≡ some pdu
      → HasMessages queue s.tx_q
      → in_flight s.tasks ≡ 0
      → 10 ≤ length (w4r_q_put platform pdu s).w4r_q
      → Reach platform (w4r_q_put platform pdu s) u
      → (handle_write platform success s ≡ ok (w4r_q_put platform pdu s))
        × IsStalled platform u
        × (u.sent ≡ s.sent)
  unfolding handle_write written
  full_window_stalls pdu s u last waits idle full r =
      let t : Session Q = w4r_q_put platform pdu s in
      let (queued, tasks, sent) = put-same pdu s in
      let (stalled, same) =
        Reach-IsStalled platform t u
          (record {
            backlog = subst (HasMessages queue) (sym queued) waits;
            idle = ap in_flight tasks ∙ idle;
          })
          r in
      (ap (λ o. written platform o s) last ∙ write_next_full t full, stalled, same ∙ sent)
