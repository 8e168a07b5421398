-- ===== src/Session/LinkFailure.antt =====
-- What follows when the response to an enquire_link is late: do_enquire_link_failure and the
-- handlers that run after it.
use kiss_smpp.Common.{
  ◌≡◌, refl, sym, ap, subst, ◌∙◌, Bool, true, false, if◌then◌else◌, ℕ, some, none, List, [], ◌∷◌,
  if_of_false, arith,
}
use kiss_smpp.Smpp.{Pdu, RawPdu, CommandId}
use kiss_smpp.TransmitQueue.{session}
use kiss_smpp.Session.{
  operation_aborted, closed, Task, connecting, reading_header, closing, Platform, Session, ok,
  and_then, writing,
}
use kiss_smpp.Session.Write.{start, transmit, set_current_state}
use kiss_smpp.Session.Close.{
  connect, close_session, close_connection, needs_unbind, do_unbind_request,
}
use kiss_smpp.Session.Timers.{do_enquire_link_failure}
use kiss_smpp.Session.Handlers.{handle_read_header, read_failed}
use kiss_smpp.Session.Loop.{
  header_read, closes, link_resp_due, Takes, here, there, react, Runs, idle, after,
}
use kiss_smpp.Session.Overlap.{do_write_lem}
use kiss_smpp.Session.Reconnect.{close_connection-Closes}
use kiss_smpp.Session.Stable.{After-ok}
use kiss_smpp.Session.Stable.Transmit.{do_write-After}

module _ {Q : Type 0} (platform : Platform Q) where
  -- The flags, and a read of a header that has not ended.
  abbrev Reading : Bool → Bool → Session Q → Type 0
  Reading stopping again s =
      (s.stop_flag ≡ stopping)
      × (s.reconnect_flag ≡ again)
      × ((rest : List Task) × Takes reading_header s.tasks rest)

  transmit-Reading :
      (stopping again : Bool) (pdu : Pdu) (s : Session Q)
      → Reading stopping again s
      → Reading stopping again (transmit platform pdu s)
  unfolding transmit
  transmit-Reading stopping again pdu s (a, b, (rest, taken)) =
      let tasks : (transmit platform pdu s).tasks ≡ writing ∷ s.tasks = ground arith in
      (
        ground arith,
        ground arith,
        (_, subst (λ ts. Takes reading_header ts (writing ∷ rest)) (sym tasks) (there taken)),
      )

  unbind-Reading :
      (b stopping again : Bool) (s : Session Q)
      → Reading stopping again s
      → (t : Session Q) × ((if b then do_unbind_request platform s else ok s) ≡ ok t)
        × Reading stopping again t
  unfolding do_unbind_request
  unbind-Reading false stopping again s h = (s, refl, h)
  unbind-Reading true stopping again s h =
      let (t, e, _) = do_write_lem platform (platform.smpp.create CommandId.unbind) session s in
      (
        t,
        e,
        After-ok (Reading stopping again) _ t e (
            do_write-After platform {P = Reading stopping again} (λ u q h. h)
              (transmit-Reading stopping again) s _ session h),
      )

  -- close_session and the closing that it starts, while a header is being read.
  closes-Reading :
      (again : Bool) (s : Session Q) (rest : List Task)
      → Takes reading_header s.tasks rest
      → (u : Session Q) × (close_session platform again s ≡ ok (start closing u))
        × Reading s.stop_flag again u
  unfolding close_session
  closes-Reading again s rest taken =
      let (t, e, reading) =
        unbind-Reading (needs_unbind s.current_state) s.stop_flag again
          (record s { reconnect_flag = again }) (refl, refl, (rest, taken)) in
      (t, ap (λ o. and_then o (λ u. ok (start closing u))) e, reading)

  close_connection-stop_flag :
      (s : Session Q) → (close_connection platform s).stop_flag ≡ s.stop_flag
  unfolding close_connection set_current_state connect
  close_connection-stop_flag s = ground arith

  -- A read of a closed session that is aborted starts the closing, to connect again.
  aborted :
      (raw : RawPdu) (s : Session Q)
      → s.stop_flag ≡ false
      → s.current_state ≡ closed
      → handle_read_header platform raw operation_aborted s
        ≡ ok (start closing (record s { reconnect_flag = true }))
  unfolding handle_read_header read_failed close_session
  aborted raw s going state = rw (going, state) refl

  -- When the response to an enquire_link is late, a session that is not being stopped and is
  -- reading the next header comes to connect again, although its first closing of the connection
  -- does not do so: there is a run over the timer, that closing, after which the state is CLOSED
  -- and nothing was started, the end of the read with operation_aborted, and a second closing,
  -- which starts a connection.
  pub link_failure_reopens :
      (s : Session Q) (raw : RawPdu) (n : ℕ) (rest : List Task)
      → s.stop_flag ≡ false
      → s.enquire_link_response_timer ≡ some n
      → Takes reading_header s.tasks rest
      → (u v t : Session Q) × Runs platform s (link_resp_due ∷ []) (start closing u)
        × Runs platform (start closing u) (closes ∷ []) v
        × (v.current_state ≡ closed)
        × (v.tasks ≡ u.tasks)
        × Runs platform v (closes ∷ header_read raw operation_aborted ∷ []) t
        × (t.current_state ≡ closed)
        × ((ts : List Task) × Takes reading_header u.tasks ts × (t.tasks ≡ connecting ∷ ts))
  unfolding react do_enquire_link_failure
  link_failure_reopens s raw n rest going due taken =
      let late : Session Q = record s {
        enquire_link_response_timer = none;
        reconnect_flag = true;
      } in
      let (u, e, (going_u, again_u, (ts, taken_u))) = closes-Reading false late rest taken in
      let v : Session Q = close_connection platform u in
      let c = close_connection-Closes platform u in
      let going_v : v.stop_flag ≡ false = close_connection-stop_flag u ∙ going_u ∙ going in
      let tasks_v : v.tasks ≡ u.tasks = c.tasks ∙ rw again_u (ground arith) in
      let again : Session Q = record v { tasks = ts; reconnect_flag = true } in
      let last = close_connection-Closes platform again in
      (
        u,
        v,
        close_connection platform again,
        after link_resp_due (record s { enquire_link_response_timer = none }) idle (n, due, refl)
            (if_of_false _ _ going ∙ e),
        after closes u idle (u.tasks, here, refl) refl,
        c.state,
        tasks_v,
        after closes again
            (after (header_read raw operation_aborted) (record v { tasks = ts }) idle
              (ts, subst (λ us. Takes reading_header us ts) (sym tasks_v) taken_u, refl)
              (aborted raw (record v { tasks = ts }) going_v c.state))
            (ts, here, refl) refl,
        last.state,
        (ts, taken_u, last.tasks ∙ rw going_v refl),
      )
