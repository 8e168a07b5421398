-- ===== src/Session/Stable/Transmit.antt =====
-- The transmit path keeps what a change of the queue, a transmission and an entry of the map keep.
use kiss_smpp.Common.{◌≡◌, refl, Bool, true, false, ◌&&◌, Option, none, some, if◌then◌else◌}
use kiss_smpp.Smpp.{Pdu}
use kiss_smpp.TransmitQueue.{Priority}
use kiss_smpp.Session.{closed, ErrorCode, success, closing, Platform, Session, Outcome, State}
use kiss_smpp.Session.Write.{
  start, set_current_state, is_writing, can_send, transmit, transmit_popped, write_pdu, do_write,
  w4r_q_put, write_next, written, write_failed, handle_write,
}
use kiss_smpp.Session.Stable.{After}

module _ {Q : Type 0} (platform : Platform Q) {P : Session Q → Type 0}
    (queues : (s : Session Q) (q : Q) → P s → P (record s { tx_q = q }))
    (transmits : (pdu : Pdu) (s : Session Q) → P s → P (transmit platform pdu s)) where
  open platform use {queue}

  transmit_popped-After :
      (o : Option Pdu) (s : Session Q) → P s → After P (transmit_popped platform o s)
  unfolding transmit_popped
  transmit_popped-After none s h = tt
  transmit_popped-After (some pdu) s h = transmits pdu s h

  write_pdu-After : (s : Session Q) → P s → After P (write_pdu platform s)
  unfolding write_pdu
  write_pdu-After s h = transmit_popped-After (queue.pop s.tx_q).0 _ (queues s _ h)

  choice_After :
      (b : Bool) (o o' : Outcome Q) → After P o → After P o' → After P (if b then o else o')
  choice_After true o o' h h' = h
  choice_After false o o' h h' = h'

  pub do_write-After :
      (s : Session Q) (pdu : Pdu) (p : Priority) → P s → After P (do_write platform pdu p s)
  unfolding do_write
  do_write-After s pdu p h =
      choice_After (is_writing platform s) _ _ pushed (write_pdu-After _ pushed)
    where
      pushed : P (record s { tx_q = queue.push s.tx_q pdu p })
      pushed = queues s _ h

  module _
      (puts : (pdu : Pdu) (s : Session Q)
        → s.last_pop ≡ some pdu
        → P s
        → P (w4r_q_put platform pdu s)) where
    pub written-After :
        (o : Option Pdu) (s : Session Q) → s.last_pop ≡ o → P s → After P (written platform o s)
    unfolding written write_next
    written-After none s e h = tt
    written-After (some pdu) s e h =
        let t = w4r_q_put platform pdu s in
        choice_After (can_send t && is_writing platform t) _ _ (write_pdu-After t (puts pdu s e h))
          (puts pdu s e h)

    module _
        (backs : (s : Session Q)
          → P s
          → P (record s {
            tx_q = (queue.push_back_last_pop s.tx_q s.last_pop).0;
            last_pop = (queue.push_back_last_pop s.tx_q s.last_pop).1;
          }))
        (closing_keeps : (s : Session Q) (p : State) (again : Bool)
          → P s
          → P (start closing (record s { current_state = p; reconnect_flag = again }))) where
      write_failed-keeps : (s : Session Q) → P s → P (write_failed platform s)
      unfolding write_failed set_current_state
      write_failed-keeps s h = split s.stop_flag
        where
          back : P (record s {
            tx_q = (queue.push_back_last_pop s.tx_q s.last_pop).0;
            last_pop = (queue.push_back_last_pop s.tx_q s.last_pop).1;
          })
          back = backs s h

          split :
              (b : Bool)
              → P (
                  if b
                  then record s {
                    tx_q = (queue.push_back_last_pop s.tx_q s.last_pop).0;
                    last_pop = (queue.push_back_last_pop s.tx_q s.last_pop).1;
                  }
                  else start closing (record s {
                    tx_q = (queue.push_back_last_pop s.tx_q s.last_pop).0;
                    last_pop = (queue.push_back_last_pop s.tx_q s.last_pop).1;
                    current_state = closed;
                    reconnect_flag = true;
                  }))
          split true = back
          split false = closing_keeps _ closed true back

      pub handle_write-After :
          (e : ErrorCode) (s : Session Q) → P s → After P (handle_write platform e s)
      unfolding handle_write
      handle_write-After success s h = written-After s.last_pop s refl h
      handle_write-After _ s h = write_failed-keeps s h
