-- ===== src/Session/Stable.antt =====
-- What every handler keeps. A predicate on sessions that the elementary updates and the handlers of
-- the transmit path keep is kept by every step of the io_service.
pub mod Sending
pub mod Closing
pub mod Received
pub mod Handlers
pub mod Steps
pub mod Resend
pub mod Transmit
use kiss_smpp.Common.{
  ℕ, ◌+◌, ◌≡◌, ◌≢◌, refl, sym, subst, Bool, true, false, Option, none, some, List, [], ◌∷◌, ◌⊎◌,
  inl, inr, arith, ap, Bool-cases, Option-cases, if◌then◌else◌, ◌++◌,
}
use kiss_smpp.Smpp.{Pdu, RawPdu, Decoded, decoded, throws, CommandId, command}
use kiss_smpp.Sequence.{next}
use kiss_smpp.TransmitQueue.{Priority, clear_session_queues}
use kiss_smpp.Waiting.{AwaitingResponseMap, erase}
use kiss_smpp.Session.{
  State, opened, ErrorCode, success, eof, operation_aborted, other_error, Task, connecting, writing,
  closing, reading_header, reading_body, Platform, Session, Outcome, ok, thrown, fault, Action,
  and_then, catch_runtime, Exception,
}
use kiss_smpp.Session.Write.{start, do_write, handle_write}
use kiss_smpp.Session.Loop.{Takes}
use kiss_smpp.Session.Timers.{w4r_q_age_cleanup}

-- The predicate holds wherever the outcome leaves a session.
abbrev pub After : {Q : Type 0} → (Session Q → Type 0) → Outcome Q → Type 0
After P (ok s) = P s
After P (thrown e s) = P s
After P fault = Unit

module _ {Q : Type 0} (P : Session Q → Type 0) where
  pub if_keeps :
      (b : Bool) (o o' : Outcome Q) → After P o → After P o' → After P (if b then o else o')
  if_keeps true o o' h h' = h
  if_keeps false o o' h h' = h'

  pub if_keeps_session : (b : Bool) (s s' : Session Q) → P s → P s' → P (if b then s else s')
  if_keeps_session true s s' h h' = h
  if_keeps_session false s s' h h' = h'

  pub After-and_then :
      (o : Outcome Q) (g : Action Q)
      → After P o
      → ((s : Session Q) → P s → After P (g s))
      → After P (and_then o g)
  After-and_then (ok s) g h k = k s h
  After-and_then (thrown e s) g h k = h
  After-and_then fault g h k = tt

  pub After-catch :
      (o : Outcome Q) (g : Action Q)
      → After P o
      → ((s : Session Q) → P s → After P (g s))
      → After P (catch_runtime o g)
  After-catch (ok s) g h k = h
  After-catch (thrown Exception.runtime_error s) g h k = k s h
  After-catch (thrown Exception.foreign_error s) g h k = h
  After-catch fault g h k = tt

  pub After-ok : (o : Outcome Q) (t : Session Q) → o ≡ ok t → After P o → P t
  After-ok o t e h = subst (After P) e h

module _ {Q : Type 0} (platform : Platform Q) where
  open platform use {smpp, queue}

  pub record Stable (P : Session Q → Type 0) : Type 0 where
    pub flags :
        (s : Session Q) (p : State) (stopping again : Bool)
        → P s
        → P (record s { current_state = p; stop_flag = stopping; reconnect_flag = again })
    pub receives :
        (s : Session Q) (pdu : Pdu) → P s → P (record s { rx_q = s.rx_q ++ some pdu ∷ [] })
    pub counts : (s : Session Q) (n : ℕ) → P s → P (record s { read_count = n })
    pub timers :
        (s : Session Q) (link resp : Option ℕ)
        → P s
        → P (record s { enquire_link_timer = link; enquire_link_response_timer = resp })
    pub passes : (s : Session Q) (d : ℕ) → P s → P (record s { clock = s.clock + d })
    pub starts : (s : Session Q) (t : Task) → t ≢ writing → P s → P (start t s)
    pub ends :
        (s : Session Q) (t : Task) (rest : List Task)
        → t ≢ writing
        → Takes t s.tasks rest
        → P s
        → P (record s { tasks = rest })
    pub numbers : (s : Session Q) → P s → P (record s { seq_num_gen = (next smpp s.seq_num_gen).1 })
    pub erases : (s : Session Q) (k : ℕ) → P s → P (record s { w4r_q = erase k s.w4r_q })
    pub shuts :
        (s : Session Q)
        → P s
        → P (record s { tx_q = clear_session_queues queue s.tx_q; ageing_timer = none })
    pub writes :
        (s : Session Q) (pdu : Pdu) (priority : Priority)
        → P s
        → After P (do_write platform pdu priority s)
    pub written :
        (s : Session Q) (e : ErrorCode) (rest : List Task)
        → Takes writing s.tasks rest
        → P s
        → After P (handle_write platform e (record s { tasks = rest }))
    pub ages :
        (s : Session Q) (n : ℕ)
        → s.ageing_timer ≡ some n
        → P s
        → After P (w4r_q_age_cleanup platform success (record s { ageing_timer = none }))
