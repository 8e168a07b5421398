-- ===== src/Session/Diagram/Refines.antt =====
-- The session refines the machine: every run shows what the machine does on the same events.
use kiss_smpp.Common.{◌≡◌, refl, sym, subst, ap, ◌∙◌, true, false, List, arith, ltb}
use kiss_smpp.Smpp.{RawPdu, command}
use kiss_smpp.Session.{
  ErrorCode, success, eof, operation_aborted, other_error, opened, Platform, Session,
}
use kiss_smpp.Session.Write.{set_current_state, handle_write}
use kiss_smpp.Session.Close.{connect, stop}
use kiss_smpp.Session.Timers.{reschedule_enquire_link}
use kiss_smpp.Session.Process.{process4state, process_in}
use kiss_smpp.Session.Handlers.{
  handle_connect, handle_read_header, handle_read_body, read_failed, w4r_q_pop,
}
use kiss_smpp.Session.Loop.{
  Event, connected, wrote, header_read, body_read, closes, stops, link_due, link_resp_due,
  ageing_due, sends, waits, Ready, react, Runs, idle, after,
}
use kiss_smpp.Session.Stable.{After, After-and_then, After-catch, After-ok, if_keeps}
use kiss_smpp.Session.Diagram.{View, view_of, verb_of, obey, fail_read, next, run}
use kiss_smpp.Session.Diagram.Writes.{
  Shows, do_bind_request-Shows, close_session-Shows, wrote-Shows, write_failed-Shows,
  send_pdu-Shows, do_enquire_link-Shows, link_failure-Shows, ageing-Shows, close_connection-Shows,
}
use kiss_smpp.Session.Diagram.Reads.{process_in-Shows}

module _ {Q : Type 0} (platform : Platform Q) where
  open platform use {smpp}

  connected-Shows :
      (e : ErrorCode) (s : Session Q)
      → After (Shows (next smpp (connected e) (view_of s))) (handle_connect platform e s)
  unfolding handle_connect set_current_state connect
  connected-Shows success s =
      After-and_then (Shows (next smpp (connected success) (view_of s))) _ _
        (do_bind_request-Shows platform (record { state = opened; stopping = s.stop_flag }) _
          (refl, refl))
        (λ t k. k)
  connected-Shows e s = (ground arith, ground arith)

  wrote-Next :
      (e : ErrorCode) (s : Session Q)
      → After (Shows (next smpp (wrote e) (view_of s))) (handle_write platform e s)
  unfolding handle_write
  wrote-Next success s = wrote-Shows platform (view_of s) s (refl, refl)
  wrote-Next e s = write_failed-Shows platform (view_of s) s (refl, refl)

  read_failed-Shows :
      (e : ErrorCode) (s : Session Q)
      → After (Shows (fail_read e (view_of s))) (read_failed platform e s)
  unfolding read_failed set_current_state
  read_failed-Shows eof s = (ground arith, ground arith)
  read_failed-Shows e s =
      if_keeps (Shows (view_of s)) s.stop_flag _ _ (refl, refl)
        (close_session-Shows platform (view_of s) true s (refl, refl))

  header_read-Shows :
      (raw : RawPdu) (e : ErrorCode) (s : Session Q)
      → After (Shows (fail_read e (view_of s))) (handle_read_header platform raw e s)
  unfolding handle_read_header
  header_read-Shows raw success s =
      if_keeps (Shows (view_of s)) (ltb raw.cmd_length 16) _ _ tt (refl, refl)
  header_read-Shows raw eof s = read_failed-Shows eof s
  header_read-Shows raw operation_aborted s = read_failed-Shows operation_aborted s
  header_read-Shows raw other_error s = read_failed-Shows other_error s

  process4state-Shows :
      (raw : RawPdu) (v : View) (s : Session Q)
      → Shows v s
      → After
          (Shows (obey smpp raw (verb_of (command smpp raw.cmd_id)) v))
          (process4state platform raw s)
  unfolding process4state reschedule_enquire_link
  process4state-Shows raw v s h =
      After-catch (Shows (obey smpp raw (verb_of (command smpp raw.cmd_id)) v)) _ _
        (subst
          (λ p.
            After (Shows (obey smpp raw (verb_of (command smpp raw.cmd_id)) v))
              (process_in platform p (command smpp raw.cmd_id) raw (reschedule_enquire_link s)))
          (sym h.0)
          (process_in-Shows platform v.state (command smpp raw.cmd_id) raw v.stopping
            (reschedule_enquire_link s) h))
        (λ t k. close_session-Shows platform _ true t k)

  w4r_q_pop-Shows :
      (raw : RawPdu) (v : View) (s : Session Q) → Shows v s → Shows v (w4r_q_pop platform raw s)
  unfolding w4r_q_pop
  w4r_q_pop-Shows raw v s h = ground arith

  body_read-Shows :
      (raw : RawPdu) (e : ErrorCode) (s : Session Q)
      → After (Shows (next smpp (body_read raw e) (view_of s))) (handle_read_body platform raw e s)
  unfolding handle_read_body
  body_read-Shows raw success s =
      After-and_then (Shows (next smpp (body_read raw success) (view_of s))) _ _
        (process4state-Shows raw (view_of s) _ (w4r_q_pop-Shows raw (view_of s) s (refl, refl)))
        (λ t k. k)
  body_read-Shows raw eof s = read_failed-Shows eof s
  body_read-Shows raw operation_aborted s = read_failed-Shows operation_aborted s
  body_read-Shows raw other_error s = read_failed-Shows other_error s

  stop-Shows : (s : Session Q) → After (Shows (next smpp stops (view_of s))) (stop platform s)
  unfolding stop
  stop-Shows s =
      close_session-Shows platform (record { state = s.current_state; stopping = true }) false _
        (refl, refl)

  -- Whatever handler runs, it leaves the session as the machine says.
  react-Shows :
      (e : Event) (s : Session Q) → After (Shows (next smpp e (view_of s))) (react platform e s)
  unfolding react
  react-Shows (connected e) s = connected-Shows e s
  react-Shows (wrote e) s = wrote-Next e s
  react-Shows (header_read raw e) s = header_read-Shows raw e s
  react-Shows (body_read raw e) s = body_read-Shows raw e s
  react-Shows closes s = close_connection-Shows platform (view_of s) s (refl, refl)
  react-Shows stops s = stop-Shows s
  react-Shows link_due s = do_enquire_link-Shows platform (view_of s) success s (refl, refl)
  react-Shows link_resp_due s = link_failure-Shows platform (view_of s) success s (refl, refl)
  react-Shows ageing_due s = ageing-Shows platform (view_of s) s (refl, refl)
  react-Shows (sends pdu) s = send_pdu-Shows platform (view_of s) pdu s (refl, refl)
  react-Shows (waits n) s = (refl, refl)

  -- What happens before the handler runs shows nothing.
  Ready-view : (e : Event) (s s' : Session Q) → Ready e s s' → view_of s' ≡ view_of s
  Ready-view (connected e) s s' (rest, taken, x) = ap view_of x
  Ready-view (wrote e) s s' (rest, taken, x) = ap view_of x
  Ready-view (header_read raw e) s s' (rest, taken, x) = ap view_of x
  Ready-view (body_read raw e) s s' (header, (rest, taken, x), y) = ap view_of x
  Ready-view closes s s' (rest, taken, x) = ap view_of x
  Ready-view link_due s s' (n, due, x) = ap view_of x
  Ready-view link_resp_due s s' (n, due, x) = ap view_of x
  Ready-view ageing_due s s' (n, due, x) = ap view_of x
  Ready-view stops s s' x = ap view_of x
  Ready-view (sends pdu) s s' x = ap view_of x
  Ready-view (waits n) s s' x = ap view_of x

  -- Every run of a session shows what the machine does on the same events: its state and whether it
  -- is being stopped are those that the machine reaches.
  pub Runs-refines :
      {s t : Session Q} {es : List Event}
      → Runs platform s es t
      → view_of t ≡ run smpp es (view_of s)
  Runs-refines idle = refl
  Runs-refines {t = u} (after {t} e t' r ready runs) =
      let (p, b) = After-ok (Shows (next smpp e (view_of t'))) _ u runs (react-Shows e t') in
      let same : view_of u ≡ next smpp e (view_of t') =
        λ i. record { state = p i; stopping = b i } in
      same ∙ ap (next smpp e) (Ready-view e t t' ready ∙ Runs-refines r)
