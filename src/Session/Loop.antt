-- ===== src/Session/Loop.antt =====
-- The io_service of a session as a step relation: an operation that was started, a timer that runs
-- out, a call from another thread, or time that passes. Each handler is one step, and each
-- operation may end in any error.
use kiss_smpp.Common.{ℕ, ◌+◌, ◌≡◌, none, some, List, [], ◌∷◌}
use kiss_smpp.Smpp.{Pdu, RawPdu}
use kiss_smpp.Session.{
  ErrorCode, success, Task, connecting, reading_header, reading_body, writing, closing, Platform,
  Session, ok, Action,
}
use kiss_smpp.Session.Write.{handle_write}
use kiss_smpp.Session.Close.{stop, close_connection}
use kiss_smpp.Session.Send.{send_pdu}
use kiss_smpp.Session.Timers.{do_enquire_link, do_enquire_link_failure, w4r_q_age_cleanup}
use kiss_smpp.Session.Handlers.{handle_connect, handle_read_header, handle_read_body}

pub data Event : Type 0 where
  connected wrote : ErrorCode → Event
  header_read body_read : RawPdu → ErrorCode → Event
  closes stops link_due link_resp_due ageing_due : Event
  sends : Pdu → Event
  waits : ℕ → Event

-- One occurrence of a task, and the tasks without it.
pub data Takes (t : Task) : List Task → List Task → Type 0 where
  here : {ts : List Task} → Takes t (t ∷ ts) ts
  there : {u : Task} {ts us : List Task} → Takes t ts us → Takes t (u ∷ ts) (u ∷ us)

module _ {Q : Type 0} where
  abbrev pub Ends : Task → Session Q → Session Q → Type 0
  Ends t s s' = (rest : List Task) × Takes t s.tasks rest × (s' ≡ record s { tasks = rest })

  -- The event may happen in `s`, and its handler starts in `s'`.
  abbrev pub Ready : Event → Session Q → Session Q → Type 0
  Ready (connected e) s s' = Ends connecting s s'
  Ready (wrote e) s s' = Ends writing s s'
  Ready (header_read raw e) s s' = Ends reading_header s s'
  Ready (body_read raw e) s s' =
      (header : RawPdu) × Ends (reading_body header) s s'
      × (raw ≡ record header { bytes = raw.bytes })
  Ready closes s s' = Ends closing s s'
  Ready link_due s s' =
      (n : ℕ) × (s.enquire_link_timer ≡ some n) × (s' ≡ record s { enquire_link_timer = none })
  Ready link_resp_due s s' =
      (n : ℕ) × (s.enquire_link_response_timer ≡ some n)
      × (s' ≡ record s { enquire_link_response_timer = none })
  Ready ageing_due s s' =
      (n : ℕ) × (s.ageing_timer ≡ some n) × (s' ≡ record s { ageing_timer = none })
  Ready stops s s' = s' ≡ s
  Ready (sends pdu) s s' = s' ≡ s
  Ready (waits n) s s' = s' ≡ s

module _ {Q : Type 0} (platform : Platform Q) where
  unfoldable pub react : Event → Action Q
  react (connected e) s = handle_connect platform e s
  react (wrote e) s = handle_write platform e s
  react (header_read raw e) s = handle_read_header platform raw e s
  react (body_read raw e) s = handle_read_body platform raw e s
  react closes s = ok (close_connection platform s)
  react stops s = stop platform s
  react link_due s = do_enquire_link platform success s
  react link_resp_due s = do_enquire_link_failure platform success s
  react ageing_due s = w4r_q_age_cleanup platform success s
  react (sends pdu) s = send_pdu platform pdu s
  react (waits n) s = ok (record s { clock = s.clock + n })

  pub data Step (s t : Session Q) : Type 0 where
    step : (e : Event) (s' : Session Q) → Ready e s s' → react e s' ≡ ok t → Step s t

  pub data Reach (s : Session Q) : Session Q → Type 0 where
    start_here : Reach s s
    then : {t u : Session Q} → Reach s t → Step t u → Reach s u

  -- A run with its events, the latest first.
  pub data Runs (s : Session Q) : List Event → Session Q → Type 0 where
    idle : Runs s [] s
    after :
        {es : List Event} {t u : Session Q} (e : Event) (t' : Session Q)
        → Runs s es t
        → Ready e t t'
        → react e t' ≡ ok u
        → Runs s (e ∷ es) u
