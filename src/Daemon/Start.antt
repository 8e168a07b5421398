-- ===== src/Daemon/Start.antt =====
-- The construction and the destruction of the daemon: ksmppc::ksmppc with constructQueues,
-- startSessions and registerHandlers, and ksmppc::~ksmppc. The threads that run the io_service and
-- the two processors are the steps of Daemon.System; the server of kisscpp is left out.
use kiss_smpp.Common.{ℕ, true, false, Option, none, some, List, []}
use kiss_smpp.Config.{
  BindType, Settings, Loaded, loaded, bad_setting, undefined_bind, session_config, make_bind_type,
}
use kiss_smpp.Session.{Platform, Outcome, ok, thrown, fault}
use kiss_smpp.Session.Close.{construct, stop}
use kiss_smpp.Daemon.{Daemon, Pass, did, crash, has_send_handler, SharedSmppPdu}
use Prim.Native.String.{String}

-- How the constructor ends: in a daemon, in an exception of a lookup or of the resolver, or in
-- undefined behaviour.
pub data Started (Q : Type 0) : Type 0 where
  started : Daemon Q → Started Q
  bad_lookup undefined : Started Q

-- constructQueues: what the three persisted queues hold, by their names.
pub record Queues : Type 0 where
  pub sending : List SharedSmppPdu
  pub recieve : List SharedSmppPdu
  pub rcv_err : List SharedSmppPdu

unfoldable pub construct_queues : (String → List SharedSmppPdu) → Queues
construct_queues open_buffer = record {
  sending = open_buffer "sendingBuffer";
  recieve = open_buffer "recieveBuffer";
  rcv_err = open_buffer "rcv_errBuffer";
}

module _ {Q : Type 0} (platform : Platform Q) where
  -- registerHandlers: the condition on the type of the bind.
  unfoldable pub register_for : Option BindType → Daemon Q → Started Q
  register_for none d = undefined
  register_for (some b) d = started (record d { send_handler = has_send_handler b })

  unfoldable pub register_as : Option String → Daemon Q → Started Q
  unfolding register_for
  register_as none d = bad_lookup
  register_as (some s) d = register_for (make_bind_type s) d

  unfoldable pub register_handlers : Settings → Daemon Q → Started Q
  unfolding register_as
  register_handlers cfg d = register_as (cfg.get_string "smpp-session.bind-type") d

  -- What follows the construction of the session.
  unfoldable pub with_session : Settings → Queues → Outcome Q → Started Q
  with_session cfg b (ok s) = register_handlers cfg (record {
    running = true;
    send_handler = false;
    sending_buffer = b.sending;
    rcv_err_buffer = b.rcv_err;
    session = s;
    handed = [];
  })
  with_session cfg b (thrown e s) = bad_lookup
  with_session cfg b fault = undefined

  -- startSessions, whose SessionManager reads its configuration first
  unfoldable pub start_sessions : Settings → Queues → Q → ℕ → Loaded → Started Q
  unfolding with_session
  start_sessions cfg b q now (loaded c) =
      with_session cfg b (construct platform cfg c q b.recieve now)
  start_sessions cfg b q now bad_setting = bad_lookup
  start_sessions cfg b q now undefined_bind = undefined

  -- ksmppc::ksmppc
  unfoldable pub start_daemon : Settings → (String → List SharedSmppPdu) → Q → ℕ → Started Q
  unfolding start_sessions
  start_daemon cfg open_buffer q now =
      start_sessions cfg (construct_queues open_buffer) q now (session_config cfg)

  unfoldable pub stopped : Daemon Q → Outcome Q → Pass Q
  stopped d (ok s) = did (record d { session = s })
  stopped d (thrown e s) = crash
  stopped d fault = crash

  -- ksmppc::~ksmppc, up to the wait for the threads, as one step; Daemon.Ends has it with the queue
  -- cleared in its middle
  unfoldable pub stop_daemon : Daemon Q → Pass Q
  unfolding stopped
  stop_daemon d = stopped (record d { running = false }) (stop platform d.session)
