-- ===== src/Daemon/Lasts.antt =====
-- The session of a daemon is valid as long as the daemon lives.
use kiss_smpp.Common.{ℕ, ◌≡◌, Option, none, some, List, subst}
use kiss_smpp.Config.{
  BindType, Settings, Loaded, loaded, bad_setting, undefined_bind, session_config, make_bind_type,
}
use kiss_smpp.Session.{Platform, Outcome, ok, thrown, fault}
use kiss_smpp.Session.Invariant.{IsValid, Stable-IsValid, construct-After}
use kiss_smpp.Session.Stable.{After}
use kiss_smpp.Daemon.{Daemon, SharedSmppPdu}
use kiss_smpp.Daemon.Start.{
  Started, started, Queues, construct_queues, register_for, register_as, register_handlers,
  with_session, start_sessions, start_daemon,
}
use kiss_smpp.Daemon.System.{Lives}
use kiss_smpp.Daemon.Keeps.{Lives-keeps}
use Prim.Native.String.{String}

module _ {Q : Type 0} (platform : Platform Q) where
  -- The daemon that a constructor gives has a valid session.
  abbrev StartedValid : Started Q → Type 0
  StartedValid (started d) = IsValid platform d.session
  StartedValid _ = Unit

  register_for-StartedValid :
      (b : Option BindType) (d : Daemon Q)
      → IsValid platform d.session
      → StartedValid (register_for platform b d)
  unfolding register_for
  register_for-StartedValid none d v = tt
  register_for-StartedValid (some b) d v = v

  register_as-StartedValid :
      (s : Option String) (d : Daemon Q)
      → IsValid platform d.session
      → StartedValid (register_as platform s d)
  unfolding register_as
  register_as-StartedValid none d v = tt
  register_as-StartedValid (some s) d v = register_for-StartedValid (make_bind_type s) d v

  with_session-StartedValid :
      (cfg : Settings) (b : Queues) (o : Outcome Q)
      → After (IsValid platform) o
      → StartedValid (with_session platform cfg b o)
  unfolding with_session register_handlers
  with_session-StartedValid cfg b (ok s) v = register_as-StartedValid _ _ v
  with_session-StartedValid cfg b (thrown e s) v = tt
  with_session-StartedValid cfg b fault v = tt

  start_sessions-StartedValid :
      (cfg : Settings) (b : Queues) (q : Q) (now : ℕ) (l : Loaded)
      → StartedValid (start_sessions platform cfg b q now l)
  unfolding start_sessions
  start_sessions-StartedValid cfg b q now (loaded c) =
      with_session-StartedValid cfg b _ (construct-After platform cfg c q b.recieve now)
  start_sessions-StartedValid cfg b q now bad_setting = tt
  start_sessions-StartedValid cfg b q now undefined_bind = tt

  start_daemon-StartedValid :
      (cfg : Settings) (open_buffer : String → List SharedSmppPdu) (q : Q) (now : ℕ)
      → StartedValid (start_daemon platform cfg open_buffer q now)
  unfolding start_daemon
  start_daemon-StartedValid cfg open_buffer q now =
      start_sessions-StartedValid cfg (construct_queues open_buffer) q now (session_config cfg)

  -- Whatever the io_service, the two processors, the send handler and the destructor do, in any
  -- order, in a daemon that its constructor gave, the session is valid: its generator of sequence
  -- numbers is in range, its count of writes is that of the PDUs it sent, each of these is
  -- numbered, and the map of the PDUs that wait for a response is sorted and holds requests under
  -- their own numbers.
  pub Lives-IsValid :
      (what : String → String) (cfg : Settings) (open_buffer : String → List SharedSmppPdu) (q : Q)
      (now : ℕ) (d d' : Daemon Q)
      → start_daemon platform cfg open_buffer q now ≡ started d
      → Lives platform what cfg d d'
      → IsValid platform d'.session
  Lives-IsValid what cfg open_buffer q now d d' e l =
      Lives-keeps platform (IsValid platform) (Stable-IsValid platform) (λ s q h. h) what cfg l
        (subst StartedValid e (start_daemon-StartedValid cfg open_buffer q now))
