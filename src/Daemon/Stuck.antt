-- ===== src/Daemon/Stuck.antt =====
-- A daemon that starts with messages from before in the transmit queue of its session.
use kiss_smpp.Common.{ℕ, ◌≡◌, ◌≢◌, sym, ap, subst, ◌∙◌, false, List, [], is_nil}
use kiss_smpp.Smpp.{SharedSmppPdu}
use kiss_smpp.Config.{Config, Settings}
use kiss_smpp.Config.Loads.{Reads}
use kiss_smpp.TransmitQueue.Lists.{HasMessages, clear-HasMessages}
use kiss_smpp.Session.{Platform}
use kiss_smpp.Session.Close.{queue_name}
use kiss_smpp.Session.Stall.{StalledAt, Stable-StalledAt}
use kiss_smpp.Session.Tasks.{in_flight}
use kiss_smpp.Daemon.{Daemon}
use kiss_smpp.Daemon.Start.{Started, started, start_daemon}
use kiss_smpp.Daemon.Starts.{New, start_daemon_lem, started-FindsCentre}
use kiss_smpp.Daemon.System.{Lives}
use kiss_smpp.Daemon.Keeps.{Lives-keeps}
use Prim.Native.String.{String}

module _ {Q : Type 0} (platform : Platform Q) where
  open platform use {queue, open_queue}

  New-StalledAt :
      (c : Config) (received : List SharedSmppPdu) (d : Daemon Q)
      → HasMessages queue (open_queue (queue_name c.type_of_bind))
      → New platform c received d.session
      → StalledAt platform [] d.session
  New-StalledAt c received d waiting new = (
    subst (HasMessages queue) (sym new.tx_q)
        (clear-HasMessages queue (open_queue (queue_name c.type_of_bind)) waiting),
    ap in_flight new.tasks,
    new.sent,
  )

  -- A message that is left from before keeps the daemon from ever writing anything. If the
  -- configuration can be read, its throttle limit is not 0 and the persisted transmit queue of the
  -- session has a message when the daemon is constructed, then whatever the io_service, the
  -- processors, the send handler and the destructor do, in any order, no PDU is given to the
  -- socket: no bind request either.
  pub never_writes :
      (what : String → String) (cfg : Settings) (c : Config)
      (open_buffer : String → List SharedSmppPdu) (q : Q) (now : ℕ) (d d' : Daemon Q)
      → Reads cfg c
      → c.tx_throttle_limit ≢ 0
      → is_nil (queue.items (open_queue (queue_name c.type_of_bind))).messages ≡ false
      → start_daemon platform cfg open_buffer q now ≡ started d
      → Lives platform what cfg d d'
      → d'.session.sent ≡ []
  never_writes what cfg c open_buffer q now d d' reads limit waiting built l =
      let (e, starts, _, new, _, _, _) =
        start_daemon_lem platform cfg c open_buffer q now reads
          (started-FindsCentre platform cfg c open_buffer q now d reads built) limit in
      let same : e ≡ d = ap (daemon_of e) (sym starts ∙ built) in
      let stalled =
        subst (λ x. StalledAt platform [] x.session) same
          (New-StalledAt c (open_buffer "recieveBuffer") e waiting new) in
      (Lives-keeps platform (StalledAt platform []) (Stable-StalledAt platform []) (λ s q h. h) what
        cfg l stalled).2
    where
      daemon_of : Daemon Q → Started Q → Daemon Q
      daemon_of other (started x) = x
      daemon_of other _ = other
