-- ===== src/Session/Write.antt =====
-- The transmit path of ksmppc/src/session_manager.cpp: writing, do_write, write_pdu,
-- throttle_check, w4rQ_put, canSend and handle_write. print_pdu, the log and the statistics have no
-- effect on the session, and encoding a PDU for the socket is left to the library. Each
-- handler is one step; the mutexes are in Session.Locks.
use kiss_smpp.Common.{
  ℕ, ◌+◌, ◌/◌, ltb, leb, Bool, true, false, not, ◌&&◌, Option, none, some, ◌∷◌, length,
  if◌then◌else◌, u32,
}
use kiss_smpp.Smpp.{Pdu, bind_receiver_resp}
use kiss_smpp.Sequence.{next}
use kiss_smpp.TransmitQueue.{Priority}
use kiss_smpp.Throttle.{throttle_check}
use kiss_smpp.Waiting.{assign, time_stamped_pdu}
use kiss_smpp.Session.{
  State, bound_tx, bound_rx, bound_trx, closed, ErrorCode, success, Task, writing, closing,
  Platform, Session, ok, fault, Action,
}

-- The states in which `canSend` lets the next PDU of the queue go.
abbrev pub is_bound : State → Bool
is_bound bound_tx = true
is_bound bound_rx = true
is_bound bound_trx = true
is_bound _ = false

module _ {Q : Type 0} where
  -- `io_service_.post` and the `async_` calls
  abbrev pub start : Task → Session Q → Session Q
  start t s = record s { tasks = t ∷ s.tasks }

  -- `setCurrentState`, less its log
  unfoldable pub set_current_state : State → Session Q → Session Q
  set_current_state p s = record s { current_state = p }

  -- The time in seconds, `time(NULL)`.
  abbrev pub seconds : Session Q → ℕ
  seconds s = s.clock / 1000000

  unfoldable pub can_send : Session Q → Bool
  can_send s = if ltb (length s.w4r_q) 10 then is_bound s.current_state else false

  -- `throttle_check` on the session's clock
  unfoldable pub throttled : (ℕ → ℕ) → Session Q → Session Q
  unfolding throttle_check
  throttled elapsed s =
      let t =
        throttle_check elapsed s.time_between_sends
          (record { clock = s.clock; next_send_time = s.throttle_next_send_time }) in
      record s { clock = t.clock; throttle_next_send_time = t.next_send_time }

module _ {Q : Type 0} (platform : Platform Q) where
  open platform use {smpp, queue, elapsed}

  -- `writing`
  unfoldable pub is_writing : Session Q → Bool
  is_writing s = not (queue.is_empty s.tx_q)

  -- A PDU with no number of its own yet is numbered.
  unfoldable pub number_pdu : Pdu → Session Q → Pdu × Session Q
  number_pdu pdu s =
      if leb pdu.sequence_number smpp.seq_min
      then (
        record pdu { sequence_number = (next smpp s.seq_num_gen).0 },
        record s { seq_num_gen = (next smpp s.seq_num_gen).1 },
      )
      else (pdu, s)

  -- What `write_pdu` does with the PDU that it popped.
  unfoldable pub transmit : Pdu → Session Q → Session Q
  unfolding number_pdu throttled
  transmit popped s =
      let (pdu, numbered) = number_pdu popped s in
      let paced = throttled elapsed (record numbered { last_pop = some pdu }) in
      start writing
        (record paced { write_count = u32 (paced.write_count + 1); sent = pdu ∷ paced.sent })

  -- `transmit` on the object that `pop` returned; the null pointer is dereferenced.
  unfoldable pub transmit_popped : Option Pdu → Action Q
  transmit_popped none s = fault
  transmit_popped (some pdu) s = ok (transmit pdu s)

  unfoldable pub write_pdu : Action Q
  unfolding transmit_popped
  write_pdu s = transmit_popped (queue.pop s.tx_q).0 (record s { tx_q = (queue.pop s.tx_q).1 })

  unfoldable pub do_write : Pdu → Priority → Action Q
  unfolding is_writing
  do_write pdu priority s =
      let pushed = record s { tx_q = queue.push s.tx_q pdu priority } in
      if is_writing s then ok pushed else write_pdu pushed

  unfoldable pub w4r_q_put : Pdu → Session Q → Session Q
  w4r_q_put pdu s =
      if ltb pdu.command_id (smpp.code bind_receiver_resp)
      then record s {
        w4r_q = assign pdu.sequence_number (time_stamped_pdu pdu (seconds s)) s.w4r_q;
      }
      else s

  unfoldable pub write_next : Action Q
  unfolding is_writing
  write_next s = if can_send s && is_writing s then write_pdu s else ok s

  -- `handle_write` after a success; it dereferences the last popped object.
  unfoldable pub written : Option Pdu → Action Q
  written none s = fault
  written (some pdu) s = write_next (w4r_q_put pdu s)

  -- An error closes the connection, to open it again, unless the session is being stopped.
  unfoldable pub write_failed : Session Q → Session Q
  unfolding set_current_state
  write_failed s =
      let back = record s {
        tx_q = (queue.push_back_last_pop s.tx_q s.last_pop).0;
        last_pop = (queue.push_back_last_pop s.tx_q s.last_pop).1;
      } in
      if s.stop_flag
      then back
      else start closing (record (set_current_state closed back) { reconnect_flag = true })

  unfoldable pub handle_write : ErrorCode → Action Q
  unfolding written write_failed
  handle_write success s = written s.last_pop s
  handle_write error s = ok (write_failed s)
