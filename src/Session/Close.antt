-- ===== src/Session/Close.antt =====
-- Opening and closing the connection, of ksmppc/src/session_manager.cpp: the constructor with
-- start_session and setTxq, initiate, connect, do_bind_request, do_unbind_request, close_session,
-- stop, close_connection. The endpoints that the
-- resolver finds, and the time that it takes, are left out.
use kiss_smpp.Common.{
  ℕ, ◌+◌, ◌*◌, ◌/◌, ◌==◌, Bool, true, false, not, ◌&&◌, Option, none, some, [], if◌then◌else◌, List,
}
use kiss_smpp.Smpp.{
  Pdu, CommandId, BindFields, bind_body, bind_receiver, bind_transceiver, bind_transmitter,
  SharedSmppPdu,
}
use kiss_smpp.Sequence.{next}
use kiss_smpp.Config.{Config, BindType, tx, rx, trx, Settings}
use kiss_smpp.TransmitQueue.{session, clear_session_queues, transmit_q}
use kiss_smpp.Session.{
  State, bound_tx, bound_rx, bound_trx, closed, outbound, connecting, closing, Platform, Session,
  Outcome, ok, thrown, fault, Action, and_then, Exception, SharedSmppPdu,
}
use kiss_smpp.Session.Write.{start, set_current_state, do_write}
use Prim.Native.String.{String}

-- The name that `setTxq` gives to the queue.
unfoldable pub queue_name : BindType → String
queue_name tx = "tx_MessageTxq"
queue_name rx = "rx_MessageTxq"
queue_name trx = "trxMessageTxq"

unfoldable pub bind_command : BindType → CommandId
bind_command tx = bind_transmitter
bind_command rx = bind_receiver
bind_command trx = bind_transceiver

unfoldable pub bind_fields : Config → BindFields
bind_fields c = record {
  system_id = c.system_id;
  password = c.password;
  system_type = c.system_type;
  interface_version = c.interface_version;
  ton = c.addr_ton;
  npi = c.addr_npi;
  address_range = c.address_range;
}

-- `close_session` asks the other side to unbind in these states.
abbrev pub needs_unbind : State → Bool
needs_unbind bound_tx = true
needs_unbind bound_rx = true
needs_unbind bound_trx = true
needs_unbind outbound = true
needs_unbind _ = false

-- `expires_from_now` and `async_wait` on the ageing timer
unfoldable pub set_w4r_q_ageing_timer : {Q : Type 0} → Session Q → Session Q
set_w4r_q_ageing_timer s = record s { ageing_timer = some s.config.enquire_link_timeout }

unfoldable pub connect : {Q : Type 0} → Session Q → Session Q
connect s = start connecting s

module _ {Q : Type 0} (platform : Platform Q) where
  open platform use {smpp, queue, open_queue, resolves, elapsed}

  abbrev pub pause : ℕ → Session Q → Session Q
  pause d s = record s { clock = s.clock + elapsed (d * 1000000) }

  unfoldable pub set_txq : Session Q → Session Q
  set_txq s = record s {
    tx_q = transmit_q queue open_queue (queue_name s.config.type_of_bind);
    last_pop = none;
  }

  -- The query and its resolution; a lookup that fails throws, and so does the resolver.
  unfoldable pub resolve_query : Option String → Option String → Action Q
  resolve_query (some host) (some port) s =
      if resolves host port then ok s else thrown Exception.runtime_error s
  resolve_query _ _ s = thrown Exception.runtime_error s

  -- A limit of 0 is a division by zero.
  unfoldable pub set_throttle : Action Q
  set_throttle s =
      if s.config.tx_throttle_limit == 0
      then fault
      else ok (record s {
        throttle_next_send_time = s.clock;
        time_between_sends = 1000000 / s.config.tx_throttle_limit;
      })

  unfoldable pub start_session : Settings → Action Q
  start_session cfg s =
      and_then
        (resolve_query (cfg.get_string "message-centre.host") (cfg.get_string "message-centre.port")
          (record s { start_time = s.clock }))
        set_throttle

  -- The members as the constructor's initialisers leave them, at the time `now`.
  unfoldable pub initial : Config → Q → List SharedSmppPdu → ℕ → Session Q
  initial config q recieve_queue now = record {
    config = config;
    stop_flag = false;
    reconnect_flag = false;
    rx_q = recieve_queue;
    tx_q = q;
    last_pop = none;
    current_state = closed;
    seq_num_gen = smpp.seq_min;
    throttle_next_send_time = 0;
    time_between_sends = 0;
    w4r_q = [];
    read_count = 0;
    write_count = 0;
    start_time = 0;
    enquire_link_timer = none;
    enquire_link_response_timer = none;
    ageing_timer = none;
    clock = now;
    tasks = [];
    sent = [];
  }

  -- SessionManager::SessionManager; `q` stands for the null pointer that setTxq replaces,
  -- `recieve_queue` is what the queue holds that receives messages.
  unfoldable pub construct : Settings → Config → Q → List SharedSmppPdu → ℕ → Outcome Q
  construct cfg config q recieve_queue now =
      and_then (start_session cfg (initial config q recieve_queue now))
        (λ s. ok (connect (set_w4r_q_ageing_timer (set_txq s))))

  unfoldable pub initiate : Session Q → Session Q
  initiate s = connect (set_txq s)

  unfoldable pub bind_request : Config → ℕ → Pdu
  bind_request c n = record (smpp.create (bind_command c.type_of_bind)) {
    sequence_number = n;
    body = bind_body (bind_fields c);
  }

  unfoldable pub do_bind_request : Action Q
  do_bind_request s =
      do_write platform (bind_request s.config (next smpp s.seq_num_gen).0) session
        (record s { seq_num_gen = (next smpp s.seq_num_gen).1 })

  unfoldable pub do_unbind_request : Action Q
  do_unbind_request s = do_write platform (smpp.create CommandId.unbind) session s

  unfoldable pub close_session : Bool → Action Q
  close_session re_connect s =
      let flagged = record s { reconnect_flag = re_connect } in
      and_then (if needs_unbind s.current_state then do_unbind_request flagged else ok flagged)
        (λ t. ok (start closing t))

  unfoldable pub stop : Action Q
  stop s = close_session false (record s { stop_flag = true })

  unfoldable pub close_connection : Session Q → Session Q
  unfolding connect
  close_connection s =
      let shut = record (set_current_state closed s) {
        enquire_link_timer = none;
        enquire_link_response_timer = none;
        ageing_timer = none;
        tx_q = clear_session_queues queue s.tx_q;
      } in
      if not s.stop_flag && s.reconnect_flag
      then connect (pause 1 (record shut { reconnect_flag = false }))
      else shut
