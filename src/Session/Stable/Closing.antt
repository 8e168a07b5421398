-- ===== src/Session/Stable/Closing.antt =====
-- Opening, closing and sending keep a stable predicate.
use Prim.Native.String.{String}
use kiss_smpp.Config.{Settings}
use kiss_smpp.Common.{◌/◌, ◌==◌, Bool, true, false, not, ◌&&◌, none, Option, some}
use kiss_smpp.Smpp.{Pdu}
use kiss_smpp.TransmitQueue.{clear_session_queues}
use kiss_smpp.Session.{closed, ErrorCode, operation_aborted, connecting, closing, Platform, Session}
use kiss_smpp.Session.Write.{set_current_state}
use kiss_smpp.Session.Close.{
  connect, do_bind_request, do_unbind_request, close_session, stop, close_connection, needs_unbind,
  resolve_query, start_session, set_throttle,
}
use kiss_smpp.Session.Send.{send_pdu}
use kiss_smpp.Session.Timers.{do_enquire_link, do_enquire_link_failure, send_enquire_link}
use kiss_smpp.Session.Stable.{After, After-and_then, Stable, if_keeps, if_keeps_session}
use kiss_smpp.Session.Stable.Sending.{send_pdu_keeps}

module _ {Q : Type 0} (platform : Platform Q) {P : Session Q → Type 0}
    (st : Stable platform P) where
  open platform use {smpp, queue}
  open st use {flags, receives, counts, timers, passes, starts, numbers, erases, shuts, writes}

  pub do_bind_request-After : (s : Session Q) → P s → After P (do_bind_request platform s)
  unfolding do_bind_request
  do_bind_request-After s h = writes _ _ _ (numbers s h)

  pub close_session-After :
      (again : Bool) (s : Session Q) → P s → After P (close_session platform again s)
  unfolding close_session do_unbind_request
  close_session-After again s h =
      After-and_then P _ _
        (if_keeps P (needs_unbind s.current_state) _ _ (writes _ _ _ (flags s _ _ again h))
          (flags s _ _ again h))
        (λ t k. starts t closing (λ e. cc) k)

  pub stop-After : (s : Session Q) → P s → After P (stop platform s)
  unfolding stop
  stop-After s h = close_session-After false _ (flags s _ true _ h)

  pub connect-keeps : (s : Session Q) → P s → P (connect s)
  unfolding connect
  connect-keeps s h = starts s connecting (λ e. cc) h

  pub close_connection-keeps : (s : Session Q) → P s → P (close_connection platform s)
  unfolding close_connection set_current_state
  close_connection-keeps s h =
      if_keeps_session P (not s.stop_flag && s.reconnect_flag) _ _
        (connect-keeps _ (passes _ _ (flags _ _ _ false shut))) shut
    where
      shut : P (record s {
        current_state = closed;
        enquire_link_timer = none;
        enquire_link_response_timer = none;
        ageing_timer = none;
        tx_q = clear_session_queues queue s.tx_q;
      })
      shut = shuts _ (timers _ none none (flags s closed _ _ h))

  pub send_pdu-After : (pdu : Pdu) (s : Session Q) → P s → After P (send_pdu platform pdu s)
  send_pdu-After pdu s h = send_pdu_keeps platform writes pdu s h

  send_enquire_link-After : (s : Session Q) → P s → After P (send_enquire_link platform s)
  unfolding send_enquire_link
  send_enquire_link-After s h =
      After-and_then P _ _ (writes _ _ _ (numbers s h)) (λ t k. timers t _ _ k)

  pub do_enquire_link-After :
      (e : ErrorCode) (s : Session Q) → P s → After P (do_enquire_link platform e s)
  unfolding do_enquire_link
  do_enquire_link-After operation_aborted s h = h
  do_enquire_link-After _ s h = send_enquire_link-After s h

  pub do_enquire_link_failure-After :
      (e : ErrorCode) (s : Session Q) → P s → After P (do_enquire_link_failure platform e s)
  unfolding do_enquire_link_failure
  do_enquire_link_failure-After operation_aborted s h = h
  do_enquire_link_failure-After _ s h =
      if_keeps P s.stop_flag _ _ h (close_session-After false _ (flags s _ _ true h))

module _ {Q : Type 0} (platform : Platform Q) (P : Session Q → Type 0) where
  open platform use {resolves}

  resolve_query-After :
      (host port : Option String) (s : Session Q)
      → P s
      → After P (resolve_query platform host port s)
  unfolding resolve_query
  resolve_query-After none port s h = h
  resolve_query-After (some host) none s h = h
  resolve_query-After (some host) (some port) s h = if_keeps P (resolves host port) _ _ h h

  pub start_session-After :
      (cfg : Settings) (s : Session Q)
      → P (record s { start_time = s.clock })
      → ((t : Session Q)
          → P t
          → P (record t {
            throttle_next_send_time = t.clock;
            time_between_sends = 1000000 / t.config.tx_throttle_limit;
          }))
      → After P (start_session platform cfg s)
  unfolding start_session set_throttle
  start_session-After cfg s h keeps =
      After-and_then P _ _ (resolve_query-After _ _ (record s { start_time = s.clock }) h)
        (λ t k. if_keeps P (t.config.tx_throttle_limit == 0) _ _ tt (keeps t k))
