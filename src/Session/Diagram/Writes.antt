-- ===== src/Session/Diagram/Writes.antt =====
-- The transmit path, the timers and the closing of a session leave the machine's state as it is.
use kiss_smpp.Common.{refl, ◌≡◌, Bool, false, arith}
use kiss_smpp.Smpp.{Pdu}
use kiss_smpp.TransmitQueue.{Priority}
use kiss_smpp.Session.{ErrorCode, success, operation_aborted, Platform, Session, closed}
use kiss_smpp.Session.Write.{
  transmit, do_write, w4r_q_put, handle_write, write_failed, set_current_state,
}
use kiss_smpp.Session.Close.{
  do_bind_request, do_unbind_request, close_session, needs_unbind, close_connection, connect,
}
use kiss_smpp.Session.Send.{send_pdu}
use kiss_smpp.Session.Timers.{
  do_enquire_link, do_enquire_link_failure, send_enquire_link, w4r_q_age_cleanup,
}
use kiss_smpp.Session.Stable.{After, After-and_then, if_keeps}
use kiss_smpp.Session.Stable.Transmit.{do_write-After, written-After}
use kiss_smpp.Session.Stable.Sending.{send_pdu_keeps}
use kiss_smpp.Session.Stable.Resend.{w4r_q_age_cleanup-After}
use kiss_smpp.Session.Diagram.{View, fail}

-- The session is seen as `v`.
abbrev pub Shows : {Q : Type 0} → View → Session Q → Type 0
Shows v s = (s.current_state ≡ v.state) × (s.stop_flag ≡ v.stopping)

module _ {Q : Type 0} (platform : Platform Q) (v : View) where
  transmit-Shows : (pdu : Pdu) (s : Session Q) → Shows v s → Shows v (transmit platform pdu s)
  unfolding transmit
  transmit-Shows pdu s h = ground arith

  pub do_write-Shows :
      (pdu : Pdu) (p : Priority) (s : Session Q)
      → Shows v s
      → After (Shows v) (do_write platform pdu p s)
  do_write-Shows pdu p s h =
      do_write-After platform {P = Shows v} (λ u q k. k) transmit-Shows s pdu p h

  put-Shows : (pdu : Pdu) (s : Session Q) → Shows v s → Shows v (w4r_q_put platform pdu s)
  unfolding w4r_q_put
  put-Shows pdu s h = ground arith

  pub wrote-Shows : (s : Session Q) → Shows v s → After (Shows v) (handle_write platform success s)
  unfolding handle_write
  wrote-Shows s h =
      written-After platform {P = Shows v} (λ u q k. k) transmit-Shows (λ x u e k. put-Shows x u k)
        s.last_pop s refl h

  pub do_bind_request-Shows :
      (s : Session Q) → Shows v s → After (Shows v) (do_bind_request platform s)
  unfolding do_bind_request
  do_bind_request-Shows s h = do_write-Shows _ _ _ h

  pub close_session-Shows :
      (again : Bool) (s : Session Q) → Shows v s → After (Shows v) (close_session platform again s)
  unfolding close_session do_unbind_request
  close_session-Shows again s h =
      After-and_then (Shows v) _ _
        (if_keeps (Shows v) (needs_unbind s.current_state) _ _ (do_write-Shows _ _ _ h) h)
        (λ t k. k)

  pub send_pdu-Shows :
      (pdu : Pdu) (s : Session Q) → Shows v s → After (Shows v) (send_pdu platform pdu s)
  send_pdu-Shows pdu s h =
      send_pdu_keeps platform {P = Shows v} (λ u x p k. do_write-Shows x p u k) pdu s h

  pub do_enquire_link-Shows :
      (e : ErrorCode) (s : Session Q) → Shows v s → After (Shows v) (do_enquire_link platform e s)
  unfolding do_enquire_link send_enquire_link
  do_enquire_link-Shows operation_aborted s h = h
  do_enquire_link-Shows _ s h = After-and_then (Shows v) _ _ (do_write-Shows _ _ _ h) (λ t k. k)

  pub link_failure-Shows :
      (e : ErrorCode) (s : Session Q)
      → Shows v s
      → After (Shows v) (do_enquire_link_failure platform e s)
  unfolding do_enquire_link_failure
  link_failure-Shows operation_aborted s h = h
  link_failure-Shows _ s h = if_keeps (Shows v) s.stop_flag _ _ h (close_session-Shows false _ h)

  pub ageing-Shows :
      (s : Session Q) → Shows v s → After (Shows v) (w4r_q_age_cleanup platform success s)
  ageing-Shows s h =
      w4r_q_age_cleanup-After platform {P = Shows v} (λ u pdu p k. do_write-Shows pdu p u k)
        (λ u k l. l) (λ u o k. k) s h

  pub write_failed-Shows : (s : Session Q) → Shows v s → Shows (fail v) (write_failed platform s)
  unfolding write_failed set_current_state
  write_failed-Shows s h = ground arith

  pub close_connection-Shows :
      (s : Session Q)
      → Shows v s
      → Shows (record v { state = closed }) (close_connection platform s)
  unfolding close_connection set_current_state connect
  close_connection-Shows s h = ground arith
