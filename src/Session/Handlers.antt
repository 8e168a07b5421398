-- ===== src/Session/Handlers.antt =====
-- The handlers of the connection and of its reads, of ksmppc/src/session_manager.cpp:
-- handle_connect, handle_read_header, handle_read_body, with w4rQ_pop.
use kiss_smpp.Common.{◌+◌, ltb, true, if◌then◌else◌, u32}
use kiss_smpp.Smpp.{RawPdu, generic_nack}
use kiss_smpp.Waiting.{erase}
use kiss_smpp.Session.{
  opened, closed, ErrorCode, success, eof, reading_header, reading_body, closing, Platform, Session,
  ok, fault, Action, and_then,
}
use kiss_smpp.Session.Write.{start, set_current_state}
use kiss_smpp.Session.Close.{connect, pause, do_bind_request, close_session}
use kiss_smpp.Session.Process.{process4state}

module _ {Q : Type 0} (platform : Platform Q) where
  open platform use {smpp}

  unfoldable pub handle_connect : ErrorCode → Action Q
  handle_connect success s =
      and_then (do_bind_request platform (set_current_state opened s))
        (λ t. ok (start reading_header t))
  handle_connect error s = ok (if s.stop_flag then s else connect (pause platform 5 s))

  -- The error branches of the two reads.
  unfoldable pub read_failed : ErrorCode → Action Q
  read_failed eof s = ok (
      if s.stop_flag
      then s
      else start closing (record (set_current_state closed s) { reconnect_flag = true }))
  read_failed error s = if s.stop_flag then ok s else close_session platform true s

  -- `bodyBuf` copies 16 bytes into a buffer of `cmd_length` bytes: a smaller one overflows.
  unfoldable pub handle_read_header : RawPdu → ErrorCode → Action Q
  handle_read_header raw success s =
      if ltb raw.cmd_length 16 then fault else ok (start (reading_body raw) s)
  handle_read_header raw error s = read_failed error s

  -- `find` and, where it finds, `erase`
  unfoldable pub w4r_q_pop : RawPdu → Session Q → Session Q
  w4r_q_pop raw s =
      if ltb (smpp.code generic_nack) raw.cmd_id
      then record s { w4r_q = erase raw.seq_num s.w4r_q }
      else s

  unfoldable pub handle_read_body : RawPdu → ErrorCode → Action Q
  handle_read_body raw success s =
      and_then (process4state platform raw (w4r_q_pop raw s))
        (λ t. ok (start reading_header (record t { read_count = u32 (t.read_count + 1) })))
  handle_read_body raw error s = read_failed error s
