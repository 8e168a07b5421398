-- ===== src/Session.antt =====
-- The state of a SessionManager (ksmppc/src/session_manager.hpp), and what its handlers return.
pub mod Write
pub mod Close
pub mod Send
pub mod Timers
pub mod Receive
pub mod Process
pub mod Handlers
pub mod Loop
pub mod Tasks
pub mod Stall
pub mod Overlap
pub mod Awaiting
pub mod Expiry
pub mod Reconnect
pub mod Sending
pub mod Receiving
pub mod Binding
pub mod Ageing
pub mod Invariant
pub mod Stable
pub mod Diagram
pub mod Winding
pub mod Lossless
pub mod Window
pub mod Recovery
pub mod Flood
pub mod Awaited
pub mod Locks
pub mod Races
pub mod Drains
pub mod Settled
pub mod LinkFailure
use kiss_smpp.Common.{ℕ, ◌≤◌, Bool, Option, List}
use kiss_smpp.Smpp.{Smpp, Pdu, RawPdu, Exception, SharedSmppPdu}
use kiss_smpp.Config.{Config}
use kiss_smpp.TransmitQueue.{Queue}
use kiss_smpp.Waiting.{AwaitingResponseMap}
use Prim.Native.String.{String}

-- SessionManager::State
pub data State : Type 0 where
  opened bound_tx bound_rx bound_trx unbound closed outbound : State

-- boost::system::error_code, as far as the handlers tell its values apart.
pub data ErrorCode : Type 0 where
  success eof operation_aborted other_error : ErrorCode

-- An operation that was started on the io_service and whose handler has not run yet.
pub data Task : Type 0 where
  connecting reading_header writing closing : Task
  reading_body : RawPdu → Task

-- The libraries and the system below the session: `open_queue` makes the persisted queue of a
-- name, `resolves` tells whether the resolver finds endpoints of a host and a port, and otherwise
-- throws, `elapsed d` is what the clock advances by in a sleep of `d` microseconds.
pub record Platform (Q : Type 0) : Type 0 where
  pub smpp : Smpp
  pub queue : Queue Q
  pub open_queue : String → Q
  pub resolves : String → String → Bool
  pub elapsed : ℕ → ℕ
  pub le_elapsed : (d : ℕ) → d ≤ elapsed d

-- The members of a SessionManager. `last_pop` is the object that the queue returned last, which
-- the queue and write_pdu share; `clock` is the time in microseconds; a timer is the number of
-- seconds it was set to, or `none` when nothing waits on it; `tasks` are the operations on the
-- io_service, and `sent` the PDUs given to async_write, the latest first in both.
pub record Session (Q : Type 0) : Type 0 where
  pub config : Config
  pub stop_flag : Bool
  pub reconnect_flag : Bool
  pub rx_q : List SharedSmppPdu
  pub tx_q : Q
  pub last_pop : Option Pdu
  pub current_state : State
  pub seq_num_gen : ℕ
  pub throttle_next_send_time : ℕ
  pub time_between_sends : ℕ
  pub w4r_q : AwaitingResponseMap
  pub read_count : ℕ
  pub write_count : ℕ
  pub start_time : ℕ
  pub enquire_link_timer : Option ℕ
  pub enquire_link_response_timer : Option ℕ
  pub ageing_timer : Option ℕ
  pub clock : ℕ
  pub tasks : List Task
  pub sent : List Pdu

-- How a handler ends: normally, by an exception, or in undefined behaviour.
pub data Outcome (Q : Type 0) : Type 0 where
  ok : Session Q → Outcome Q
  thrown : Exception → Session Q → Outcome Q
  fault : Outcome Q

abbrev pub Action : Type 0 → Type 0
Action Q = Session Q → Outcome Q

abbrev pub and_then : {Q : Type 0} → Outcome Q → Action Q → Outcome Q
and_then (ok s) g = g s
and_then (thrown e s) g = thrown e s
and_then fault g = fault

infixl 5 ◌>>◌
abbrev pub ◌>>◌ : {Q : Type 0} → Action Q → Action Q → Action Q
◌>>◌ f g s = and_then (f s) g

-- `try { f } catch (std::runtime_error &e) { g }`
abbrev pub catch_runtime : {Q : Type 0} → Outcome Q → Action Q → Outcome Q
catch_runtime (ok s) g = ok s
catch_runtime (thrown Exception.runtime_error s) g = g s
catch_runtime (thrown Exception.foreign_error s) g = thrown Exception.foreign_error s
catch_runtime fault g = fault
