-- ===== src/Daemon/Works.antt =====
-- The daemon from its start to the first message it sends: the constructor, the session, the send
-- handler and sendingProcessor together.
use kiss_smpp.Common.{
  ℕ, ◌≡◌, ◌≢◌, refl, sym, ap, subst, ◌∙◌, true, false, some, List, [], ◌∷◌, ◌++◌, inl, inr, arith,
  ltb, not,
}
use kiss_smpp.Smpp.{Pdu, RawPdu, MessageFields, message_body, submit_sm, is_response}
use kiss_smpp.Config.{Config, BindType, tx, rx, trx, Settings}
use kiss_smpp.Session.Binding.{bound_by}
use kiss_smpp.Session.Send.{sends_bound_tx}
use kiss_smpp.Config.Loads.{Reads}
use kiss_smpp.TransmitQueue.{no_items}
use kiss_smpp.TransmitQueue.Lists.{items-clear_session_queues}
use kiss_smpp.Session.{State, connecting, Platform, Session, success, writing}
use kiss_smpp.Session.Close.{queue_name}
use kiss_smpp.Session.Write.{is_writing, number_pdu, w4r_q_put, seconds}
use kiss_smpp.Session.Loop.{Event, Takes, here, step, Runs, idle, after, react, wrote}
use kiss_smpp.Session.Recovery.{Asks}
use kiss_smpp.Session.Settled.{settles}
use kiss_smpp.Session.Overlap.{handle_write_idle}
use kiss_smpp.Session.Awaiting.{w4r_q_put_lem}
use kiss_smpp.Waiting.Map.{find-assign}
use kiss_smpp.Waiting.{TimeStampedPdu, find}
use kiss_smpp.Session.Sending.{permitted}
use kiss_smpp.SendHandler.{Request, Response, got, submit_fields, run}
use kiss_smpp.Daemon.{Daemon, has_send_handler, SharedSmppPdu}
use kiss_smpp.Daemon.Start.{started, start_daemon}
use kiss_smpp.Daemon.Starts.{response_to, roles_agree, start_daemon_lem, FindsCentre, New}
use kiss_smpp.Daemon.System.{in_session, sends, requested, Lives, at_first, later}
use kiss_smpp.Daemon.Sends.{sending_passes}
use kiss_smpp.Daemon.Delivers.{submission, run_got}
use Prim.Native.String.{String}

module _ {Q : Type 0} (platform : Platform Q) where
  open platform use {smpp}

  -- The PDU of a request, under whatever number.
  pub record Carries (f : MessageFields) (m : Pdu) : Type 0 where
    pub command : m.command_id ≡ smpp.code submit_sm
    pub fields : m.body ≡ message_body f

  numbered-Carries :
      (f : MessageFields) (s : Session Q) → Carries f (number_pdu platform (submission smpp f) s).0
  unfolding number_pdu
  numbered-Carries f s = record {
    command = ground (arith, smpp.create_command submit_sm);
    fields = ground arith;
  }

module _ {Q : Type 0} (platform : Platform Q) (what : String → String) (cfg : Settings) where
  open platform use {smpp, queue, open_queue}

  -- The runs of its session are part of the life of a daemon.
  pub Runs-Lives :
      (d : Daemon Q) {t : Session Q} {es : List Event}
      → Runs platform d.session es t
      → Lives platform what cfg d (record d { session = t })
  Runs-Lives d idle = at_first
  Runs-Lives d (after e t' r ready runs) =
      later (Runs-Lives d r) (in_session (step e t' ready runs))

  -- The end of the write of a request enters it in the map.
  put-Waits :
      (m : Pdu) (s : Session Q)
      → m.command_id ≡ smpp.code submit_sm
      → ((w4r_q_put platform m s).sent ≡ s.sent)
        × ((e : TimeStampedPdu) × (find m.sequence_number (w4r_q_put platform m s).w4r_q ≡ some e)
            × (e.obj ≡ m))
  unfolding is_response
  put-Waits m s c =
      let put = w4r_q_put_lem platform submit_sm m s c in
      (
        ap (λ t. t.sent) put,
        (
          record { obj = m; timestamp = seconds s },
          ap (λ t. find m.sequence_number t.w4r_q) put
              ∙ ground (
                arith,
                find-assign m.sequence_number m.sequence_number
                    (record { obj = m; timestamp = seconds s }) s.w4r_q,
              ),
          refl,
        ),
      )

  -- A request, a pass of sendingProcessor and the end of the write, on an idle session that permits
  -- a submit_sm.
  submits :
      (request : Request) (response : Response) (f : MessageFields) (d : Daemon Q)
      → d.running ≡ true
      → d.send_handler ≡ true
      → d.sending_buffer ≡ []
      → permitted d.session.current_state submit_sm ≡ true
      → is_writing platform d.session ≡ false
      → submit_fields cfg request ≡ got f
      → (t : Session Q) × Lives platform what cfg d (record d { session = t })
        × (let m = (number_pdu platform (submission smpp f) d.session).0 in
            (t.sent ≡ m ∷ d.session.sent)
            × ((e : TimeStampedPdu) × (find m.sequence_number t.w4r_q ≡ some e) × (e.obj ≡ m)))
  unfolding is_writing react
  submits request response f d on handler none_waits may empty e =
      let asked : Daemon Q = record d {
        sending_buffer = (run smpp what cfg request d.sending_buffer response).0;
      } in
      let buffer : asked.sending_buffer ≡ some (submission smpp f) ∷ [] =
        run_got smpp what cfg request d.sending_buffer response f e
        ∙ ap (λ q. q ++ some (submission smpp f) ∷ []) none_waits in
      let (t, pass, how) =
        sending_passes platform submit_sm (submission smpp f) [] asked on buffer
          (smpp.create_command submit_sm) may in
      elim how [
        | inl goes ↦
            let m : Pdu = (number_pdu platform (submission smpp f) d.session).0 in
            let u : Session Q = record t { tasks = d.session.tasks } in
            let (sent, waits) = put-Waits m u (numbered-Carries platform f d.session).command in
            let begun : Lives platform what cfg d (record d { session = t }) =
              subst (λ q. Lives platform what cfg d (record d { session = t; sending_buffer = q }))
                (sym none_waits)
                (later (later at_first (requested request response handler)) (sends pass)) in
            (
              w4r_q_put platform m u,
              later begun (
                  in_session (
                    step (wrote success) u
                      (
                        d.session.tasks,
                        subst (λ ts. Takes writing ts d.session.tasks) (sym goes.tasks) here,
                        refl,
                      )
                      (handle_write_idle platform u m goes.last goes.idle))),
              (sent ∙ goes.out, waits),
            )
        | inr waits ↦ let busy = waits.was_busy in absurd (ground arith)
      ]

  Lives-append :
      {d e g : Daemon Q}
      → Lives platform what cfg d e
      → Lives platform what cfg e g
      → Lives platform what cfg d g
  Lives-append l at_first = l
  Lives-append l (later m happens) = later (Lives-append l m) happens

  -- The state that the response leads to permits a submit_sm, unless the session only receives.
  may_submit :
      (b : BindType) (p : State)
      → b ≢ rx
      → bound_by (response_to b) ≡ some p
      → permitted p submit_sm ≡ true
  unfolding sends_bound_tx has_send_handler
  may_submit rx p ne e = absurd (ne refl)
  may_submit tx p ne e = let (q, f, g) = roles_agree tx in cc
  may_submit trx p ne e = let (q, f, g) = roles_agree trx in cc

  New-empty :
      (c : Config) (received : List SharedSmppPdu) (s : Session Q)
      → New platform c received s
      → (queue.items (open_queue (queue_name c.type_of_bind))).messages ≡ []
      → is_writing platform s ≡ false
  unfolding is_writing
  New-empty c received s new none_waits = ap not (
      ap queue.is_empty new.tx_q
      ∙ queue.is_empty_items _
      ∙ ap no_items (items-clear_session_queues queue (open_queue (queue_name c.type_of_bind)))
      ∙ ap (λ m. no_items (record { sessions = []; responses = []; messages = m })) none_waits)

  -- The daemon works. If the configuration can be read, its throttle limit is not 0, its bind type
  -- is not RX, the resolver finds the message centre that is set and no message is left from before
  -- in the sending buffer or in the queue of the session, then the constructor gives a daemon, and
  -- for a bind response of the configured kind with the status ESME_ROK and a request whose lookups
  -- all succeed, there is a course of events by which its session has written two PDUs: first a
  -- bind request of the configured kind with the configured fields, and then the submit_sm of the
  -- request, which waits for its response in the map.
  pub start_to_submit :
      (c : Config) (open_buffer : String → List SharedSmppPdu) (q : Q) (now : ℕ) (raw : RawPdu)
      (request : Request) (response : Response) (f : MessageFields)
      → Reads cfg c
      → FindsCentre platform cfg
      → c.tx_throttle_limit ≢ 0
      → c.type_of_bind ≢ rx
      → open_buffer "sendingBuffer" ≡ []
      → (queue.items (open_queue (queue_name c.type_of_bind))).messages ≡ []
      → raw.cmd_id ≡ smpp.code (response_to c.type_of_bind)
      → raw.cmd_status ≡ smpp.esme_rok
      → ltb raw.cmd_length 16 ≡ false
      → submit_fields cfg request ≡ got f
      → (d d' : Daemon Q) × (start_daemon platform cfg open_buffer q now ≡ started d)
        × Lives platform what cfg d d'
        × ((b m : Pdu) × (d'.session.sent ≡ m ∷ b ∷ [])
            × Asks platform c b
            × Carries platform f m
            × ((w : TimeStampedPdu) × (find m.sequence_number d'.session.w4r_q ≡ some w)
                × (w.obj ≡ m)))
  start_to_submit c open_buffer q now raw request response f reads centre limit ne buffer none_waits
        e ok_status whole fields =
      let (d, starts, on, new, sending, errors, (p, bound, role)) =
        start_daemon_lem platform cfg c open_buffer q now reads centre limit in
      let may = may_submit c.type_of_bind p ne bound in
      let (t, r, state, (b, out, asks), idle_t) =
        settles platform d.session p raw []
          (subst (λ ts. Takes connecting ts []) (sym new.tasks) here)
          (New-empty c (open_buffer "recieveBuffer") d.session new none_waits)
          (record {
            kind = response_to c.type_of_bind;
            bound = bound;
            identifier = e;
            status = ok_status;
            whole = whole;
          }) in
      let (u, l, (written, waits)) =
        submits request response f (record d { session = t }) on (sym role ∙ may) (sending ∙ buffer)
          (ap (λ x. permitted x submit_sm) state ∙ may) idle_t fields in
      (
        d,
        record d { session = u },
        starts,
        Lives-append (Runs-Lives d r) l,
        (
          b,
          _,
          written
              ∙ ap (λ xs. (number_pdu platform (submission smpp f) t).0 ∷ xs)
                  (out ∙ ap (λ xs. b ∷ xs) new.sent),
          subst (λ x. Asks platform x b) new.config asks,
          numbered-Carries platform f t,
          waits,
        ),
      )
