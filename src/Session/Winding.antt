-- ===== src/Session/Winding.antt =====
-- A session that is being stopped and whose connection was closed runs out of work: no handler
-- starts an operation, so the io_service returns from `run`.
pub mod Down
use kiss_smpp.Common.{
  suc, ◌+◌, ◌≡◌, ◌≢◌, refl, sym, ap, subst, true, Option, none, some, List, [], ◌∷◌, length, arith,
}
use kiss_smpp.Smpp.{Pdu, RawPdu}
use kiss_smpp.Session.{
  closed, ErrorCode, success, eof, other_error, Task, connecting, reading_header, reading_body,
  writing, closing, Platform, Session, Outcome, ok, Pdu,
}
use kiss_smpp.Session.Write.{
  set_current_state, can_send, handle_write, written, write_next, write_failed, w4r_q_put,
}
use kiss_smpp.Session.Close.{close_connection, connect}
use kiss_smpp.Session.Handlers.{handle_connect, handle_read_header, handle_read_body, read_failed}
use kiss_smpp.Session.Loop.{
  Event, connected, wrote, header_read, body_read, closes, Takes, Ends, Ready, react, Runs, idle,
  after,
}

-- The end of an operation on a socket that is closed. A write may have ended before.
abbrev pub IsEnd : Event → Type 0
IsEnd (connected e) = e ≢ success
IsEnd (wrote e) = Unit
IsEnd (header_read raw e) = e ≢ success
IsEnd (body_read raw e) = e ≢ success
IsEnd closes = Unit
IsEnd _ = ⊥

abbrev pub AllEnds : List Event → Type 0
AllEnds [] = Unit
AllEnds (e ∷ es) = IsEnd e × AllEnds es

length-Takes : {t : Task} {ts us : List Task} → Takes t ts us → length ts ≡ suc (length us)
length-Takes Takes.here = refl
length-Takes (Takes.there k) = let h = length-Takes k in omega arith

-- A session that is being stopped and is closed, with no timer that runs.
pub record IsWinding {Q : Type 0} (s : Session Q) : Type 0 where
  pub stopping : s.stop_flag ≡ true
  pub shut : s.current_state ≡ closed
  pub link : s.enquire_link_timer ≡ none
  pub link_response : s.enquire_link_response_timer ≡ none
  pub ageing : s.ageing_timer ≡ none

module _ {Q : Type 0} (platform : Platform Q) where
  open platform use {queue}

  pub close_connection-IsWinding :
      (s : Session Q) → s.stop_flag ≡ true → IsWinding (close_connection platform s)
  unfolding close_connection set_current_state connect
  close_connection-IsWinding s h = ground arith

  -- The outcome is a winding session with the same tasks.
  abbrev pub Winds : List Task → Outcome Q → Type 0
  Winds ts (ok u) = IsWinding u × (u.tasks ≡ ts)
  Winds ts _ = Unit

  pub read_failed-idle :
      (e : ErrorCode) (s : Session Q) → IsWinding s → read_failed platform e s ≡ ok s
  unfolding read_failed
  read_failed-idle eof s w = ground arith
  read_failed-idle e s w = ground arith

  w4r_q_put-IsWinding :
      (pdu : Pdu) (s : Session Q)
      → IsWinding s
      → IsWinding (w4r_q_put platform pdu s) × ((w4r_q_put platform pdu s).tasks ≡ s.tasks)
  unfolding w4r_q_put
  w4r_q_put-IsWinding pdu s w = ground arith

  write_next-idle : (s : Session Q) → IsWinding s → write_next platform s ≡ ok s
  unfolding write_next can_send
  write_next-idle s w = ground arith

  written-Winds :
      (o : Option Pdu) (s : Session Q) → IsWinding s → Winds s.tasks (written platform o s)
  unfolding written
  written-Winds none s w = tt
  written-Winds (some pdu) s w = let k = w4r_q_put-IsWinding pdu s w in rw (write_next-idle _ k.0) k

  write_failed-IsWinding :
      (s : Session Q)
      → IsWinding s
      → IsWinding (write_failed platform s) × ((write_failed platform s).tasks ≡ s.tasks)
  unfolding write_failed
  write_failed-IsWinding s w = ground arith

  close_again-IsWinding :
      (s : Session Q)
      → IsWinding s
      → IsWinding (close_connection platform s) × ((close_connection platform s).tasks ≡ s.tasks)
  unfolding close_connection set_current_state connect
  close_again-IsWinding s w = ground arith

  pub handle_connect-idle :
      (e : ErrorCode) (s : Session Q)
      → IsWinding s
      → e ≢ success
      → handle_connect platform e s ≡ ok s
  unfolding handle_connect
  handle_connect-idle success s w ne = absurd (ne refl)
  handle_connect-idle _ s w ne = ground arith

  -- The handler of an ended operation starts no other.
  pub react-Winds :
      (e : Event) (s : Session Q) → IsEnd e → IsWinding s → Winds s.tasks (react platform e s)
  unfolding react handle_write handle_read_header handle_read_body
  react-Winds (connected e) s end w = rw (handle_connect-idle e s w end) (w, refl)
  react-Winds (wrote success) s end w = written-Winds s.last_pop s w
  react-Winds (wrote e) s end w = write_failed-IsWinding s w
  react-Winds (header_read raw success) s end w = absurd (end refl)
  react-Winds (header_read raw e) s end w = rw (read_failed-idle e s w) (w, refl)
  react-Winds (body_read raw success) s end w = absurd (end refl)
  react-Winds (body_read raw e) s end w = rw (read_failed-idle e s w) (w, refl)
  react-Winds closes s end w = close_again-IsWinding s w
  react-Winds _ s end w = absurd end

  -- The session that the handler starts in has one task less.
  Ends-Winds :
      (t : Task) (s s' : Session Q)
      → Ends t s s'
      → IsWinding s
      → IsWinding s' × (length s.tasks ≡ suc (length s'.tasks))
  Ends-Winds t s s' (rest, taken, e) w =
      subst (λ u. IsWinding u × (length s.tasks ≡ suc (length u.tasks))) (sym e)
        (
          record {
            stopping = w.stopping;
            shut = w.shut;
            link = w.link;
            link_response = w.link_response;
            ageing = w.ageing;
          },
          length-Takes taken,
        )

  pub Ready-Winds :
      (e : Event) (s s' : Session Q)
      → IsEnd e
      → Ready e s s'
      → IsWinding s
      → IsWinding s' × (length s.tasks ≡ suc (length s'.tasks))
  Ready-Winds (connected e) s s' end r w = Ends-Winds connecting s s' r w
  Ready-Winds (wrote e) s s' end r w = Ends-Winds writing s s' r w
  Ready-Winds (header_read raw e) s s' end r w = Ends-Winds reading_header s s' r w
  Ready-Winds (body_read raw e) s s' end (header, r, same) w =
      Ends-Winds (reading_body header) s s' r w
  Ready-Winds closes s s' end r w = Ends-Winds closing s s' r w
  Ready-Winds _ s s' end r w = absurd end

  pub Winds-ok :
      (ts : List Task) (o : Outcome Q) (u : Session Q)
      → o ≡ ok u
      → Winds ts o
      → IsWinding u × (u.tasks ≡ ts)
  Winds-ok ts o u e h = subst (Winds ts) e h

  pub Runs-Winds :
      {s t : Session Q} {es : List Event}
      → Runs platform s es t
      → AllEnds es
      → IsWinding s
      → IsWinding t × (length es + length t.tasks ≡ length s.tasks)
  Runs-Winds idle ends w = (w, omega arith)
  Runs-Winds {t = u} (after {t} e t' r ready runs) (end, ends) w =
      let (w1, n1) = Runs-Winds r ends w in
      let (w2, n2) = Ready-Winds e t t' end ready w1 in
      let (w3, n3) = Winds-ok t'.tasks _ u runs (react-Winds e t' end w2) in
      (w3, omega (arith, ap (λ ts. length ts) n3))
