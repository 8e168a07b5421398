-- ===== src/Session/Races.antt =====
-- do_write (ksmppc/src/session_manager.cpp) in one thread, while close_connection in the thread of
-- the io_service clears levels of the transmit queue. do_write holds writeMutex, close_connection
-- does not; the single operations of the queue are atomic.
pub mod Levels
pub mod Linear
use kiss_smpp.Common.{◌||◌, not, if◌then◌else◌, List, [], ◌∷◌, Bool, true, false}
use kiss_smpp.Smpp.{Pdu}
use kiss_smpp.TransmitQueue.{Priority, session, response, message, Queue}
use kiss_smpp.Session.{Platform, Session, Outcome, ok}
use kiss_smpp.Session.Write.{write_pdu}

abbrev pub is_same : Priority → Priority → Bool
is_same session session = true
is_same response response = true
is_same message message = true
is_same _ _ = false

-- The level is one of the list.
abbrev pub is_cleared : Priority → List Priority → Bool
is_cleared p [] = false
is_cleared p (r ∷ ps) = is_same p r || is_cleared p ps

-- One `clear` after another
abbrev pub clear_levels : {Q : Type 0} → Queue Q → List Priority → Q → Q
clear_levels queue [] q = q
clear_levels queue (p ∷ ps) q = clear_levels queue ps (queue.clear q p)

module _ {Q : Type 0} (platform : Platform Q) where
  open platform use {queue}

  abbrev pub with_cleared : List Priority → Session Q → Session Q
  with_cleared ps s = record s { tx_q = clear_levels queue ps s.tx_q }

  -- What do_write does after the push: `busy` is write_in_progress.
  unfoldable pub write_unless : Bool → Session Q → Outcome Q
  write_unless true s = ok s
  write_unless false s = write_pdu platform s

  -- do_write with the levels that are cleared between its test and its push, and between its push
  -- and the pop of write_pdu.
  unfoldable pub do_write_cleared :
      List Priority → List Priority → Pdu → Priority → Session Q → Outcome Q
  unfolding write_unless
  do_write_cleared after_test after_push pdu priority s =
      let tested = clear_levels queue after_test s.tx_q in
      let pushed = clear_levels queue after_push (queue.push tested pdu priority) in
      write_unless (not (queue.is_empty s.tx_q)) (record s { tx_q = pushed })
