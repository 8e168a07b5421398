-- ===== src/Session/Stable/Steps.antt =====
-- A stable predicate is kept by every step of the io_service, and so by every run.
use kiss_smpp.Common.{◌≢◌, sym, subst}
use kiss_smpp.Session.{
  success, Task, connecting, reading_header, reading_body, writing, closing, Platform, Session,
}
use kiss_smpp.Session.Loop.{
  Event, connected, wrote, header_read, body_read, closes, stops, link_due, link_resp_due,
  ageing_due, sends, waits, Ends, Ready, react, Step, step, Reach, start_here, then,
}
use kiss_smpp.Session.Write.{handle_write}
use kiss_smpp.Session.Timers.{w4r_q_age_cleanup}
use kiss_smpp.Session.Stable.{After, After-ok, Stable}
use kiss_smpp.Session.Stable.Closing.{
  stop-After, close_connection-keeps, send_pdu-After, do_enquire_link-After,
  do_enquire_link_failure-After,
}
use kiss_smpp.Session.Stable.Handlers.{
  handle_connect-After, handle_read_header-After, handle_read_body-After,
}

module _ {Q : Type 0} (platform : Platform Q) {P : Session Q → Type 0}
    (st : Stable platform P) where
  Ends-keeps : (t : Task) (s s' : Session Q) → t ≢ writing → Ends t s s' → P s → P s'
  Ends-keeps t s s' other (rest, taken, e) h = subst P (sym e) (st.ends s t rest other taken h)

  pub react-After :
      (e : Event) (s s' : Session Q) → Ready e s s' → P s → After P (react platform e s')
  unfolding react
  react-After (connected e) s s' r h =
      handle_connect-After platform st e s' (Ends-keeps connecting s s' (λ x. cc) r h)
  react-After (wrote e) s s' (rest, taken, x) h =
      subst (λ u. After P (handle_write platform e u)) (sym x) (st.written s e rest taken h)
  react-After (header_read raw e) s s' r h =
      handle_read_header-After platform st raw e s' (Ends-keeps reading_header s s' (λ x. cc) r h)
  react-After (body_read raw e) s s' (header, r, same) h =
      handle_read_body-After platform st raw e s'
        (Ends-keeps (reading_body header) s s' (λ x. cc) r h)
  react-After closes s s' r h =
      close_connection-keeps platform st s' (Ends-keeps closing s s' (λ x. cc) r h)
  react-After stops s s' r h = stop-After platform st s' (subst P (sym r) h)
  react-After link_due s s' (n, due, e) h =
      do_enquire_link-After platform st success s' (subst P (sym e) (st.timers s _ _ h))
  react-After link_resp_due s s' (n, due, e) h =
      do_enquire_link_failure-After platform st success s' (subst P (sym e) (st.timers s _ _ h))
  react-After ageing_due s s' (n, due, e) h =
      subst (λ u. After P (w4r_q_age_cleanup platform success u)) (sym e) (st.ages s n due h)
  react-After (sends pdu) s s' r h = send_pdu-After platform st pdu s' (subst P (sym r) h)
  react-After (waits n) s s' r h = st.passes s' n (subst P (sym r) h)

  pub Step-keeps : {s t : Session Q} → Step platform s t → P s → P t
  Step-keeps {s} {t} (step e s' ready runs) h =
      After-ok P (react platform e s') t runs (react-After e s s' ready h)

  pub Reach-keeps : {s t : Session Q} → Reach platform s t → P s → P t
  Reach-keeps start_here h = h
  Reach-keeps (then r x) h = Step-keeps x (Reach-keeps r h)
