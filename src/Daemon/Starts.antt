-- ===== src/Daemon/Starts.antt =====
-- The daemon as its constructor leaves it.
use kiss_smpp.Common.{
  ◌↔◌, ℕ, ◌≡◌, ◌≢◌, refl, ◌∙◌, ap, true, false, some, List, [], ◌∷◌, ◌==◌, arith, if_of_false, ◌/◌,
  Option-cases, inl, inr, Bool-cases,
}
use kiss_smpp.Smpp.{
  CommandId, submit_sm, bind_receiver_resp, bind_transmitter_resp, bind_transceiver_resp,
}
use kiss_smpp.Config.{
  Config, BindType, tx, rx, trx, Settings, Loaded, loaded, bad_setting, undefined_bind,
  session_config,
}
use kiss_smpp.Config.Loads.{Reads, session_config_iff, make_bind_type-name_of}
use kiss_smpp.TransmitQueue.{clear_session_queues}
use kiss_smpp.Session.{State, closed, connecting, and_then, Platform, Session, ok}
use kiss_smpp.Session.Close.{
  construct, initial, start_session, set_txq, set_w4r_q_ageing_timer, connect, queue_name,
  resolve_query, set_throttle,
}
use kiss_smpp.Session.Send.{sends_bound_tx, sends_bound_rx}
use kiss_smpp.Session.Sending.{permitted}
use kiss_smpp.Session.Binding.{bound_by}
use kiss_smpp.Daemon.{Daemon, has_send_handler, SharedSmppPdu}
use kiss_smpp.Daemon.Start.{
  started, Queues, construct_queues, register_for, register_as, register_handlers, with_session,
  start_sessions, start_daemon,
}
use Prim.Native.String.{String}

-- The response to the bind request of each type.
abbrev pub response_to : BindType → CommandId
response_to rx = bind_receiver_resp
response_to tx = bind_transmitter_resp
response_to trx = bind_transceiver_resp

-- The bound state that the response leads to permits a submit_sm exactly if a send handler is made.
pub roles_agree :
    (b : BindType)
    → (p : State) × (bound_by (response_to b) ≡ some p)
      × (permitted p submit_sm ≡ has_send_handler b)
unfolding sends_bound_tx sends_bound_rx has_send_handler
roles_agree rx = (_, refl, refl)
roles_agree tx = (_, refl, refl)
roles_agree trx = (_, refl, refl)

module _ {Q : Type 0} (platform : Platform Q) where
  open platform use {queue, open_queue, resolves}

  -- A session that was constructed: it is closed and tries to connect.
  pub record New (c : Config) (received : List SharedSmppPdu) (s : Session Q) : Type 0 where
    pub config : s.config ≡ c
    pub state : s.current_state ≡ closed
    pub tasks : s.tasks ≡ connecting ∷ []
    pub sent : s.sent ≡ []
    pub rx_q : s.rx_q ≡ received
    pub tx_q : s.tx_q ≡ clear_session_queues queue (open_queue (queue_name c.type_of_bind))
    pub flags : (s.stop_flag ≡ false) × (s.reconnect_flag ≡ false)
    pub gap : s.time_between_sends ≡ 1000000 / c.tx_throttle_limit

  -- The settings name the message centre, and the resolver finds it.
  pub record FindsCentre (cfg : Settings) : Type 0 where
    pub host : String
    pub port : String
    pub host_set : cfg.get_string "message-centre.host" ≡ some host
    pub port_set : cfg.get_string "message-centre.port" ≡ some port
    pub found : resolves host port ≡ true

  start_session_on :
      (cfg : Settings) (s : Session Q)
      → FindsCentre cfg
      → s.config.tx_throttle_limit ≢ 0
      → start_session platform cfg s
        ≡ ok (record s {
          start_time = s.clock;
          throttle_next_send_time = s.clock;
          time_between_sends = 1000000 / s.config.tx_throttle_limit;
        })
  unfolding start_session resolve_query set_throttle
  start_session_on cfg s f h =
      rw (f.host_set, f.port_set, f.found)
        (if_of_false {b = s.config.tx_throttle_limit == 0} _ _ (ground arith))

  construct-New :
      (cfg : Settings) (c : Config) (q : Q) (received : List SharedSmppPdu) (now : ℕ)
      → FindsCentre cfg
      → c.tx_throttle_limit ≢ 0
      → (s : Session Q) × (construct platform cfg c q received now ≡ ok s) × New c received s
  unfolding construct initial set_txq set_w4r_q_ageing_timer connect
  construct-New cfg c q received now f h = (
    _,
    ap (λ o. and_then o (λ s. ok (connect (set_w4r_q_ageing_timer (set_txq platform s)))))
        (start_session_on cfg (initial platform c q received now) f h),
    record {
      config = refl;
      state = refl;
      tasks = refl;
      sent = refl;
      rx_q = refl;
      tx_q = refl;
      flags = (refl, refl);
      gap = refl;
    },
  )

  register-Started :
      (cfg : Settings) (c : Config) (d : Daemon Q)
      → Reads cfg c
      → register_handlers platform cfg d
        ≡ started (record d { send_handler = has_send_handler c.type_of_bind })
  unfolding register_handlers register_as register_for
  register-Started cfg c d r = rw r.bind (rw (make_bind_type-name_of c.type_of_bind) refl)

  -- If the configuration can be read, its throttle limit is not 0 and the resolver finds the host
  -- and the port that are set for the message centre, the constructor gives a daemon that runs over
  -- the three persisted buffers, with a new session that tries to connect and receives into the
  -- receive buffer. It has a send handler exactly if the response to the session's bind request
  -- leads to a state that permits a submit_sm.
  pub start_daemon_lem :
      (cfg : Settings) (c : Config) (open_buffer : String → List SharedSmppPdu) (q : Q) (now : ℕ)
      → Reads cfg c
      → FindsCentre cfg
      → c.tx_throttle_limit ≢ 0
      → (d : Daemon Q) × (start_daemon platform cfg open_buffer q now ≡ started d)
        × (d.running ≡ true)
        × New c (open_buffer "recieveBuffer") d.session
        × (d.sending_buffer ≡ open_buffer "sendingBuffer")
        × (d.rcv_err_buffer ≡ open_buffer "rcv_errBuffer")
        × ((p : State) × (bound_by (response_to c.type_of_bind) ≡ some p)
            × (permitted p submit_sm ≡ d.send_handler))
  unfolding start_daemon start_sessions with_session construct_queues
  start_daemon_lem cfg c open_buffer q now r f h =
      let (s, e, new) = construct-New cfg c q (open_buffer "recieveBuffer") now f h in
      (
        _,
        ap (start_sessions platform cfg (construct_queues open_buffer) q now)
              ((session_config_iff cfg c).1 r)
            ∙ ap (with_session platform cfg (construct_queues open_buffer)) e
            ∙ register-Started cfg c _ r,
        refl,
        new,
        refl,
        refl,
        roles_agree c.type_of_bind,
      )

  -- A daemon that was constructed has found the message centre.
  pub started-FindsCentre :
      (cfg : Settings) (c : Config) (open_buffer : String → List SharedSmppPdu) (q : Q) (now : ℕ)
      (d : Daemon Q)
      → Reads cfg c
      → start_daemon platform cfg open_buffer q now ≡ started d
      → FindsCentre cfg
  unfolding start_daemon start_sessions construct start_session resolve_query with_session
  started-FindsCentre cfg c open_buffer q now d r built =
      let b = rw ((session_config_iff cfg c).1 r) at built in
      elim (Option-cases (cfg.get_string "message-centre.host")) [
        | inl e ↦ let h = rw e at b in cc
        | inr (host, e) ↦ elim (Option-cases (cfg.get_string "message-centre.port")) [
          | inl f ↦ let h = rw (e, f) at b in cc
          | inr (port, f) ↦ elim (Bool-cases (resolves host port)) [
            | inl found ↦ record {
              host = host;
              port = port;
              host_set = e;
              port_set = f;
              found = found;
            }
            | inr lost ↦ let h = rw (e, f, lost) at b in cc
          ]
        ]
      ]

  -- A daemon that was constructed has read its configuration.
  started-Reads :
      (cfg : Settings) (b : Queues) (q : Q) (now : ℕ) (d : Daemon Q) (l : Loaded)
      → session_config cfg ≡ l
      → start_sessions platform cfg b q now l ≡ started d
      → (c : Config) × Reads cfg c
  unfolding start_sessions
  started-Reads cfg b q now d (loaded c) e h = (c, (session_config_iff cfg c).0 e)
  started-Reads cfg b q now d bad_setting e h = cc
  started-Reads cfg b q now d undefined_bind e h = cc

  started-limit :
      (cfg : Settings) (c : Config) (open_buffer : String → List SharedSmppPdu) (q : Q) (now : ℕ)
      (d : Daemon Q)
      → Reads cfg c
      → FindsCentre cfg
      → start_daemon platform cfg open_buffer q now ≡ started d
      → c.tx_throttle_limit ≢ 0
  unfolding start_daemon start_sessions construct start_session resolve_query set_throttle
      with_session initial
  started-limit cfg c open_buffer q now d r f built zero_limit =
      let b = rw ((session_config_iff cfg c).1 r) at built in
      let h = rw (f.host_set, f.port_set, f.found, zero_limit) at b in cc

  -- The constructor gives a daemon exactly if the configuration can be read, its throttle limit is
  -- not 0 and the resolver finds the host and the port that are set for the message centre; in
  -- every other case it ends in an exception or in undefined behaviour.
  pub started_iff :
      (cfg : Settings) (open_buffer : String → List SharedSmppPdu) (q : Q) (now : ℕ)
      → ((d : Daemon Q) × (start_daemon platform cfg open_buffer q now ≡ started d))
        ↔ ((c : Config) × Reads cfg c × FindsCentre cfg × (c.tx_throttle_limit ≢ 0))
  unfolding start_daemon
  started_iff cfg open_buffer q now = (
    λ (d, built).
        let (c, r) =
          started-Reads cfg (construct_queues open_buffer) q now d (session_config cfg) refl
            built in
        let f = started-FindsCentre cfg c open_buffer q now d r built in
        (c, r, f, started-limit cfg c open_buffer q now d r f built),
    λ (c, r, f, limit).
        let (d, starts, _, _, _, _, _) = start_daemon_lem cfg c open_buffer q now r f limit in
        (d, starts),
  )
