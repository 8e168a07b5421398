-- ===== src/Session/Recovery.antt =====
-- How a session gets bound: the connection, the bind request and its answer in one run; and how it
-- comes back after the other side closed the connection.
use kiss_smpp.Config.{Config, BindType, tx, rx, trx}
use kiss_smpp.Common.{
  ℕ, ◌≡◌, refl, sym, ap, subst, ◌∙◌, true, false, some, List, [], ◌∷◌, ◌++◌, inl, inr, arith, ltb,
  ==_iff, if_of_true, if_of_false,
}
use kiss_smpp.Smpp.{
  RawPdu, Pdu, CommandId, bind_body, bind_transmitter, bind_receiver, bind_transceiver,
}
use kiss_smpp.Sequence.{next}
use kiss_smpp.TransmitQueue.{session, no_items}
use kiss_smpp.Session.{
  State, opened, closed, success, eof, Task, connecting, reading_header, Platform, Session, ok,
  and_then,
}
use kiss_smpp.Session.Write.{start, set_current_state, is_writing, number_pdu}
use kiss_smpp.Session.Close.{
  do_bind_request, bind_request, bind_command, bind_fields, close_connection,
}
use kiss_smpp.Session.Handlers.{handle_connect, handle_read_header, read_failed}
use kiss_smpp.Session.Loop.{
  Event, connected, header_read, body_read, closes, Takes, here, react, Runs, idle, after,
}
use kiss_smpp.Session.Overlap.{do_write_lem}
use kiss_smpp.Session.Reconnect.{close_connection-Closes}
use kiss_smpp.Session.Binding.{bound_by, bind_resp_lem}

-- A response to a bind that leads to the state `p`, with the status ESME_ROK and a whole header.
pub record Accepts {Q : Type 0} (platform : Platform Q) (p : State) (raw : RawPdu) : Type 0 where
  pub kind : CommandId
  pub bound : bound_by kind ≡ some p
  pub identifier : raw.cmd_id ≡ platform.smpp.code kind
  pub status : raw.cmd_status ≡ platform.smpp.esme_rok
  pub whole : ltb raw.cmd_length 16 ≡ false

-- The request for each type of bind.
abbrev pub request_for : BindType → CommandId
request_for tx = bind_transmitter
request_for rx = bind_receiver
request_for trx = bind_transceiver

bind_command-request_for : (b : BindType) → bind_command b ≡ request_for b
unfolding bind_command
bind_command-request_for tx = refl
bind_command-request_for rx = refl
bind_command-request_for trx = refl

module _ {Q : Type 0} (platform : Platform Q) where
  open platform use {smpp, queue}

  pub Runs-append :
      {s t u : Session Q} {es fs : List Event}
      → Runs platform s es t
      → Runs platform t fs u
      → Runs platform s (fs ++ es) u
  Runs-append r idle = r
  Runs-append r (after e t' r' ready runs) = after e t' (Runs-append r r') ready runs

  -- A bind request of the configured kind, with the configured fields.
  pub record Asks (c : Config) (b : Pdu) : Type 0 where
    pub command : b.command_id ≡ smpp.code (request_for c.type_of_bind)
    pub fields :
        b.body
        ≡ bind_body (record {
          system_id = c.system_id;
          password = c.password;
          system_type = c.system_type;
          interface_version = c.interface_version;
          ton = c.addr_ton;
          npi = c.addr_npi;
          address_range = c.address_range;
        })

  pub bind_request-Asks :
      (c : Config) (n : ℕ) (s : Session Q)
      → Asks c (number_pdu platform (bind_request platform c n) s).0
  unfolding number_pdu bind_request bind_fields
  bind_request-Asks c n s = record {
    command = ground (
      arith,
      smpp.create_command (bind_command c.type_of_bind),
      bind_command-request_for c.type_of_bind,
    );
    fields = ground arith;
  }

  -- On an empty queue do_bind_request writes the request at once.
  bind_request_goes :
      (s : Session Q)
      → queue.is_empty s.tx_q ≡ true
      → (t : Session Q) × (do_bind_request platform s ≡ ok t)
        × (t.current_state ≡ s.current_state)
        × ((b : Pdu) × (t.sent ≡ b ∷ s.sent) × Asks s.config b)
        × (queue.is_empty t.tx_q ≡ true)
  unfolding do_bind_request is_writing
  bind_request_goes s h =
      let (t, e, how) =
        do_write_lem platform (bind_request platform s.config (next smpp s.seq_num_gen).0) session
          (record s { seq_num_gen = (next smpp s.seq_num_gen).1 }) in
      elim how [
        | inl goes ↦ (
          t,
          e,
          goes.state,
          (_, goes.out, bind_request-Asks s.config _ _),
          let idle = goes.idle in ground arith,
        )
        | inr waits ↦ let busy = waits.was_busy in absurd (ground arith)
      ]

  -- The three handlers of a connection that succeeds, on an empty queue.
  pub gets_bound :
      (s : Session Q) (p : State) (raw : RawPdu) (rest : List Task)
      → Takes connecting s.tasks rest
      → queue.is_empty s.tx_q ≡ true
      → Accepts platform p raw
      → (t : Session Q) × Runs platform s
          (body_read raw success ∷ header_read raw success ∷ connected success ∷ [])
          t
        × (t.current_state ≡ p)
        × ((b : Pdu) × (t.sent ≡ b ∷ s.sent) × Asks s.config b)
        × (queue.is_empty t.tx_q ≡ true)
  unfolding react handle_connect handle_read_header set_current_state
  gets_bound s p raw rest taken empty a =
      let s1 : Session Q = record s { tasks = rest } in
      let (u, e, state, (b, sent, asks), idle_u) =
        bind_request_goes (record s1 { current_state = opened }) empty in
      let (t, read, bound, out, q) =
        bind_resp_lem platform a.kind p raw u a.bound a.identifier (inl state) in
      let ok_status = (==_iff raw.cmd_status smpp.esme_rok).1 a.status in
      (
        t,
        after (body_read raw success) u
            (after (header_read raw success) u
              (after (connected success) s1 idle (rest, taken, refl)
                (ap (λ o. and_then o (λ v. ok (start reading_header v))) e))
              (u.tasks, here, refl) (if_of_false _ _ a.whole))
            (raw, (u.tasks, here, refl), refl) read,
        bound ∙ if_of_true _ _ ok_status,
        (b, out ∙ sent, asks),
        ap queue.is_empty q ∙ idle_u,
      )

  -- The end of the stream, and the closing that it asks for: the session connects again.
  reopens :
      (s : Session Q) (raw : RawPdu) (rest : List Task)
      → s.stop_flag ≡ false
      → Takes reading_header s.tasks rest
      → (t : Session Q) × Runs platform s (closes ∷ header_read raw eof ∷ []) t
        × (t.tasks ≡ connecting ∷ rest)
        × (queue.items t.tx_q
            ≡ record { sessions = []; responses = []; messages = (queue.items s.tx_q).messages })
        × (t.config ≡ s.config)
        × (t.sent ≡ s.sent)
  unfolding react handle_read_header read_failed set_current_state close_connection
  reopens s raw rest going taken =
      let closing_s : Session Q = record s {
        current_state = closed;
        reconnect_flag = true;
        tasks = rest;
      } in
      let closed_s = close_connection-Closes platform closing_s in
      (
        close_connection platform closing_s,
        after closes closing_s
            (after (header_read raw eof) (record s { tasks = rest }) idle (rest, taken, refl)
              (ground arith))
            (rest, here, refl) refl,
        closed_s.tasks ∙ ground arith,
        closed_s.items,
        ground arith,
        closed_s.sent,
      )

  -- A session comes back by itself after the other side has closed the connection. If it is not
  -- being stopped, reads the next header and has no message waiting, then there is a run of the
  -- io_service, over the end of the stream, the closing, a new connection and a bind response of
  -- status ESME_ROK for the state `p`, to a session in the state `p`; on the way the session sends
  -- one PDU, a bind request of the configured kind with the configured fields.
  pub recovers :
      (s : Session Q) (p : State) (raw : RawPdu) (rest : List Task)
      → s.stop_flag ≡ false
      → Takes reading_header s.tasks rest
      → (queue.items s.tx_q).messages ≡ []
      → Accepts platform p raw
      → (t : Session Q) × Runs platform s
          (body_read raw success
            ∷ header_read raw success
            ∷ connected success
            ∷ closes
            ∷ header_read raw eof
            ∷ [])
          t
        × (t.current_state ≡ p)
        × ((b : Pdu) × (t.sent ≡ b ∷ s.sent) × Asks s.config b)
  recovers s p raw rest going taken none_waits a =
      let (t, r, tasks, items, same, sent) = reopens s raw rest going taken in
      let empty : queue.is_empty t.tx_q ≡ true =
        queue.is_empty_items t.tx_q
        ∙ ap no_items items
        ∙ ap (λ m. no_items (record { sessions = []; responses = []; messages = m })) none_waits in
      let (u, r', state, (b, out, asks), _) =
        gets_bound t p raw rest (subst (λ ts. Takes connecting ts rest) (sym tasks) here) empty a in
      (
        u,
        Runs-append r r',
        state,
        (b, out ∙ ap (λ xs. b ∷ xs) sent, subst (λ c. Asks c b) same asks),
      )
