-- ===== src/Session/Reconnect.antt =====
-- Closing the connection and opening it again.
use kiss_smpp.Common.{
  ◌≡◌, ◌≢◌, refl, ap, ◌∙◌, Bool, true, false, not, ◌&&◌, none, List, [], ◌∷◌, arith, if◌then◌else◌,
  if_of_false,
}
use kiss_smpp.TransmitQueue.Lists.{items-clear_session_queues}
use kiss_smpp.Session.{
  closed, ErrorCode, success, eof, Task, connecting, closing, Platform, Session, ok, and_then, Pdu,
}
use kiss_smpp.Session.Write.{start, set_current_state, handle_write, write_failed, transmit}
use kiss_smpp.Session.Close.{
  connect, close_session, close_connection, needs_unbind, do_unbind_request, stop,
}
use kiss_smpp.Session.Handlers.{read_failed, handle_read_header, handle_read_body}
use kiss_smpp.Session.Overlap.{do_write_lem}
use kiss_smpp.Session.Stable.{After-ok}
use kiss_smpp.Session.Stable.Transmit.{do_write-After}
use kiss_smpp.Smpp.{Pdu, RawPdu, CommandId}
use kiss_smpp.TransmitQueue.{session}

module _ {Q : Type 0} (platform : Platform Q) where
  open platform use {queue}

  -- What close_connection leaves of the session `s`.
  pub record Closes (s t : Session Q) : Type 0 where
    pub state : t.current_state ≡ closed
    pub link : t.enquire_link_timer ≡ none
    pub link_response : t.enquire_link_response_timer ≡ none
    pub ageing : t.ageing_timer ≡ none
    pub items :
        queue.items t.tx_q
        ≡ record { sessions = []; responses = []; messages = (queue.items s.tx_q).messages }
    pub waiting : t.w4r_q ≡ s.w4r_q
    pub sent : t.sent ≡ s.sent
    pub tasks :
        t.tasks ≡ (if not s.stop_flag && s.reconnect_flag then connecting ∷ s.tasks else s.tasks)
    pub again : not t.stop_flag && t.reconnect_flag ≡ false

  -- close_connection ends in the state CLOSED with every timer cancelled. It drops the PDUs of the
  -- two session levels and keeps the messages and the map. It connects again exactly if a reconnect
  -- was asked for and the session is not being stopped, and then takes the request back.
  pub close_connection-Closes : (s : Session Q) → Closes s (close_connection platform s)
  unfolding close_connection set_current_state connect
  close_connection-Closes s = record {
    state = ground arith;
    link = ground arith;
    link_response = ground arith;
    ageing = ground arith;
    items = ground (arith, items-clear_session_queues queue s.tx_q);
    waiting = ground arith;
    sent = ground arith;
    tasks = ground arith;
    again = ground arith;
  }

  -- The two flags, as do_write leaves them.
  abbrev pub Flags : Bool → Bool → Session Q → Type 0
  Flags stopping again t = (t.stop_flag ≡ stopping) × (t.reconnect_flag ≡ again)

  pub transmit-Flags :
      (stopping again : Bool) (pdu : Pdu) (s : Session Q)
      → Flags stopping again s
      → Flags stopping again (transmit platform pdu s)
  unfolding transmit
  transmit-Flags stopping again pdu s h = ground arith

  -- The flags are as given, and the task of closing was added.
  abbrev pub Closing : Bool → Bool → Session Q → Type 0
  Closing stopping again t =
      (t.stop_flag ≡ stopping)
      × (t.reconnect_flag ≡ again)
      × ((rest : List Task) × (t.tasks ≡ closing ∷ rest))

  unbind_lem :
      (b : Bool) (s : Session Q)
      → (t : Session Q) × ((if b then do_unbind_request platform s else ok s) ≡ ok t)
        × Flags s.stop_flag s.reconnect_flag t
  unfolding do_unbind_request
  unbind_lem false s = (s, refl, (refl, refl))
  unbind_lem true s =
      let (t, e, _) = do_write_lem platform (platform.smpp.create CommandId.unbind) session s in
      (
        t,
        e,
        After-ok (Flags s.stop_flag s.reconnect_flag) _ t e (
            do_write-After platform {P = Flags s.stop_flag s.reconnect_flag} (λ u q h. h)
              (transmit-Flags s.stop_flag s.reconnect_flag) s _ session (refl, refl)),
      )

  -- close_session always succeeds, and leaves the closing of the connection to the io_service.
  pub close_session-Closing :
      (again : Bool) (s : Session Q)
      → (t : Session Q) × (close_session platform again s ≡ ok t) × Closing s.stop_flag again t
  unfolding close_session
  close_session-Closing again s =
      let (t, e, flags) =
        unbind_lem (needs_unbind s.current_state) (record s { reconnect_flag = again }) in
      (
        start closing t,
        ap (λ o. and_then o (λ u. ok (start closing u))) e,
        (flags.0, flags.1, (t.tasks, refl)),
      )

  -- The connection stays closed: what the closing of `t` leaves to do is what was there besides.
  abbrev pub StaysClosed : Session Q → Type 0
  StaysClosed t =
      (rest : List Task) × (t.tasks ≡ closing ∷ rest)
      × ((close_connection platform (record t { tasks = rest })).tasks ≡ rest)

  -- The connection is opened again when the closing of `t` has run.
  abbrev pub OpensAgain : Session Q → Type 0
  OpensAgain t =
      (rest : List Task) × (t.tasks ≡ closing ∷ rest)
      × ((close_connection platform (record t { tasks = rest })).tasks ≡ connecting ∷ rest)

  Closing-StaysClosed : (t : Session Q) (stopping : Bool) → Closing stopping false t → StaysClosed t
  Closing-StaysClosed t stopping (a, b, (rest, e)) =
      let closes = (close_connection-Closes (record t { tasks = rest })).tasks in
      (rest, e, ground arith)

  Closing-OpensAgain : (t : Session Q) → Closing false true t → OpensAgain t
  Closing-OpensAgain t (a, b, (rest, e)) =
      let closes = (close_connection-Closes (record t { tasks = rest })).tasks in
      (rest, e, ground arith)

  -- stop closes the session for good.
  pub stop-StaysClosed :
      (s : Session Q) → (t : Session Q) × (stop platform s ≡ ok t) × StaysClosed t
  unfolding stop
  stop-StaysClosed s =
      let (t, e, c) = close_session-Closing false (record s { stop_flag = true }) in
      (t, e, Closing-StaysClosed t true c)

  read_failed-OpensAgain :
      (e : ErrorCode) (s : Session Q)
      → s.stop_flag ≡ false
      → (t : Session Q) × (read_failed platform e s ≡ ok t) × OpensAgain t
  unfolding read_failed set_current_state
  read_failed-OpensAgain eof s h =
      let t : Session Q =
        start closing (record s { current_state = closed; reconnect_flag = true }) in
      (t, ap ok (if_of_false s t h), Closing-OpensAgain t (h, refl, (s.tasks, refl)))
  read_failed-OpensAgain _ s h =
      let (t, e, c) = close_session-Closing true s in
      (t, if_of_false _ _ h ∙ e, Closing-OpensAgain t (c.0 ∙ h, c.1, c.2))

  -- When a read of a header or of a body fails, a session that is not being stopped closes the
  -- connection and opens it again.
  pub read_failure-OpensAgain :
      (raw : RawPdu) (e : ErrorCode) (s : Session Q)
      → e ≢ success
      → s.stop_flag ≡ false
      → (t : Session Q) × (handle_read_header platform raw e s ≡ ok t)
        × (handle_read_body platform raw e s ≡ ok t)
        × OpensAgain t
  unfolding handle_read_header handle_read_body
  read_failure-OpensAgain raw success s ne h = absurd (ne refl)
  read_failure-OpensAgain raw _ s ne h =
      let (t, r, o) = read_failed-OpensAgain _ s h in (t, r, r, o)

  -- When a write fails, a session that is not being stopped puts the PDU back, closes the
  -- connection and opens it again.
  pub write_failure-OpensAgain :
      (e : ErrorCode) (s : Session Q)
      → e ≢ success
      → s.stop_flag ≡ false
      → (t : Session Q) × (handle_write platform e s ≡ ok t)
        × (t.tx_q ≡ (queue.push_back_last_pop s.tx_q s.last_pop).0)
        × OpensAgain t
  unfolding handle_write write_failed set_current_state
  write_failure-OpensAgain success s ne h = absurd (ne refl)
  write_failure-OpensAgain _ s ne h =
      let back : Session Q = record s {
        tx_q = (queue.push_back_last_pop s.tx_q s.last_pop).0;
        last_pop = (queue.push_back_last_pop s.tx_q s.last_pop).1;
      } in
      let t : Session Q =
        start closing (record back { current_state = closed; reconnect_flag = true }) in
      (t, ap ok (if_of_false back t h), refl, Closing-OpensAgain t (h, refl, (s.tasks, refl)))
