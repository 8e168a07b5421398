-- ===== src/Daemon/Ends.antt =====
-- The end of the daemon: what the destructor waits for.
use kiss_smpp.Common.{Bool, not, ◌&&◌, if◌then◌else◌, ◌≡◌, refl, false, true, List, []}
use kiss_smpp.Smpp.{CommandId}
use kiss_smpp.TransmitQueue.{Priority, session}
use kiss_smpp.Session.Write.{start, is_writing}
use kiss_smpp.Session.Races.{is_cleared, do_write_cleared}
use kiss_smpp.Session.Races.Linear.{cleared-do_write}
use kiss_smpp.Session.{closing, Platform, Session, Outcome, ok, and_then}
use kiss_smpp.Session.Close.{stop, close_session, needs_unbind, do_unbind_request}
use kiss_smpp.Daemon.{Daemon, Pass}
use kiss_smpp.Daemon.Start.{stop_daemon, stopped}
use Prim.Native.String.{String}

module _ {Q : Type 0} (platform : Platform Q) where
  -- SessionManager::stop and the destructor, with the levels that close_connection clears in the
  -- thread of the io_service in the middle of the do_write of the unbind request: after its test
  -- and after its push.
  unfoldable pub stop_cleared : List Priority → List Priority → Session Q → Outcome Q
  stop_cleared b c s =
      let flagged = record s { stop_flag = true; reconnect_flag = false } in
      and_then
        (if needs_unbind s.current_state
          then do_write_cleared platform b c (platform.smpp.create CommandId.unbind) session flagged
          else ok flagged)
        (λ t. ok (start closing t))

  unfoldable pub stop_daemon_cleared : List Priority → List Priority → Daemon Q → Pass Q
  stop_daemon_cleared b c d =
      stopped platform (record d { running = false }) (stop_cleared b c d.session)

  -- With nothing cleared in between it is the destructor as one step.
  stop_daemon_cleared-stop_daemon :
      (d : Daemon Q) → stop_daemon_cleared [] [] d ≡ stop_daemon platform d
  unfolding stop_daemon_cleared stop_cleared stop_daemon stop close_session do_unbind_request
  stop_daemon_cleared-stop_daemon d =
      rw
        (cleared-do_write platform (platform.smpp.create CommandId.unbind) session
          (record d.session { stop_flag = true; reconnect_flag = false }))
        refl

  -- The unbind request is to be written at once and its level is cleared before it is popped.
  abbrev pub loses_unbind : List Priority → Session Q → Bool
  loses_unbind c s =
      needs_unbind s.current_state && not (is_writing platform s) && is_cleared session c
