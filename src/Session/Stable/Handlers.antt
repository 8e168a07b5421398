-- ===== src/Session/Stable/Handlers.antt =====
-- The handlers of connecting and reading keep a stable predicate.
use kiss_smpp.Common.{true, ltb}
use kiss_smpp.Smpp.{RawPdu, generic_nack}
use kiss_smpp.Session.{
  opened, closed, ErrorCode, success, eof, operation_aborted, other_error, closing, reading_header,
  reading_body, Platform, Session,
}
use kiss_smpp.Session.Write.{set_current_state}
use kiss_smpp.Session.Handlers.{
  handle_connect, handle_read_header, handle_read_body, read_failed, w4r_q_pop,
}
use kiss_smpp.Session.Stable.{After, After-and_then, Stable, if_keeps_session, if_keeps}
use kiss_smpp.Session.Stable.Closing.{do_bind_request-After, connect-keeps, close_session-After}
use kiss_smpp.Session.Stable.Received.{process4state-After}

module _ {Q : Type 0} (platform : Platform Q) {P : Session Q → Type 0}
    (st : Stable platform P) where
  open platform use {smpp, queue}
  open st use {flags, receives, counts, timers, passes, starts, numbers, erases, shuts, writes}

  pub handle_connect-After :
      (e : ErrorCode) (s : Session Q) → P s → After P (handle_connect platform e s)
  unfolding handle_connect set_current_state
  handle_connect-After success s h =
      After-and_then P _ _ (do_bind_request-After platform st _ (flags s opened _ _ h))
        (λ t k. starts t reading_header (λ e. cc) k)
  handle_connect-After _ s h =
      if_keeps_session P s.stop_flag _ _ h (connect-keeps platform st _ (passes s _ h))

  read_failed-After : (e : ErrorCode) (s : Session Q) → P s → After P (read_failed platform e s)
  unfolding read_failed set_current_state
  read_failed-After eof s h =
      if_keeps_session P s.stop_flag _ _ h (starts _ closing (λ e. cc) (flags s closed _ true h))
  read_failed-After _ s h = if_keeps P s.stop_flag _ _ h (close_session-After platform st true s h)

  pub handle_read_header-After :
      (raw : RawPdu) (e : ErrorCode) (s : Session Q)
      → P s
      → After P (handle_read_header platform raw e s)
  unfolding handle_read_header
  handle_read_header-After raw success s h =
      if_keeps P (ltb raw.cmd_length 16) _ _ tt (starts s (reading_body raw) (λ e. cc) h)
  handle_read_header-After raw eof s h = read_failed-After eof s h
  handle_read_header-After raw operation_aborted s h = read_failed-After operation_aborted s h
  handle_read_header-After raw other_error s h = read_failed-After other_error s h

  w4r_q_pop-keeps : (raw : RawPdu) (s : Session Q) → P s → P (w4r_q_pop platform raw s)
  unfolding w4r_q_pop
  w4r_q_pop-keeps raw s h =
      if_keeps_session P (ltb (smpp.code generic_nack) raw.cmd_id) _ _ (erases s raw.seq_num h) h

  pub handle_read_body-After :
      (raw : RawPdu) (e : ErrorCode) (s : Session Q)
      → P s
      → After P (handle_read_body platform raw e s)
  unfolding handle_read_body
  handle_read_body-After raw success s h =
      After-and_then P _ _ (process4state-After platform st raw _ (w4r_q_pop-keeps raw s h))
        (λ t k. starts _ reading_header (λ e. cc) (counts t _ k))
  handle_read_body-After raw eof s h = read_failed-After eof s h
  handle_read_body-After raw operation_aborted s h = read_failed-After operation_aborted s h
  handle_read_body-After raw other_error s h = read_failed-After other_error s h
