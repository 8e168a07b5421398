-- ===== src/Session/Settled.antt =====
-- A connection that is made and bound, each write of which has ended.
use kiss_smpp.Common.{
  ◌≡◌, refl, sym, ap, ◌∙◌, false, List, [], ◌∷◌, inl, inr, arith, ==_iff, if_of_true, if_of_false,
  subst,
}
use kiss_smpp.Smpp.{RawPdu, Pdu}
use kiss_smpp.Sequence.{next}
use kiss_smpp.TransmitQueue.{session}
use kiss_smpp.Session.{
  State, opened, success, Task, connecting, writing, reading_header, Platform, Session, ok,
  and_then,
}
use kiss_smpp.Session.Write.{start, set_current_state, is_writing, number_pdu, w4r_q_put}
use kiss_smpp.Session.Close.{do_bind_request, bind_request}
use kiss_smpp.Session.Handlers.{handle_connect, handle_read_header}
use kiss_smpp.Session.Loop.{
  connected, wrote, header_read, body_read, Takes, here, there, react, Runs, idle, after,
}
use kiss_smpp.Session.Overlap.{Goes, do_write_lem, handle_write_idle}
use kiss_smpp.Session.Binding.{bind_resp_lem}
use kiss_smpp.Session.Recovery.{Asks, Accepts, bind_request-Asks}
use kiss_smpp.Session.Drains.{put-parts}

module _ {Q : Type 0} (platform : Platform Q) where
  open platform use {smpp, queue}

  -- What do_bind_request writes on an empty queue.
  bind_request-Goes :
      (s : Session Q)
      → is_writing platform s ≡ false
      → (t : Session Q) × (do_bind_request platform s ≡ ok t)
        × Goes platform
            (bind_request platform s.config (next smpp s.seq_num_gen).0)
            (record s { seq_num_gen = (next smpp s.seq_num_gen).1 })
            t
  unfolding do_bind_request is_writing
  bind_request-Goes s h =
      let (t, e, how) =
        do_write_lem platform (bind_request platform s.config (next smpp s.seq_num_gen).0) session
          (record s { seq_num_gen = (next smpp s.seq_num_gen).1 }) in
      (
        t,
        e,
        elim how [
          | inl goes ↦ goes
          | inr waits ↦ let busy = waits.was_busy in absurd (ground arith)
        ],
      )

  -- The handlers of a connection that succeeds, on an empty queue: the bind request is written
  -- before its response is read.
  pub settles :
      (s : Session Q) (p : State) (raw : RawPdu) (rest : List Task)
      → Takes connecting s.tasks rest
      → is_writing platform s ≡ false
      → Accepts platform p raw
      → (t : Session Q) × Runs platform s
          (body_read raw success ∷ header_read raw success ∷ wrote success ∷ connected success ∷ [])
          t
        × (t.current_state ≡ p)
        × ((b : Pdu) × (t.sent ≡ b ∷ s.sent) × Asks platform s.config b)
        × (is_writing platform t ≡ false)
  unfolding react handle_connect handle_read_header set_current_state is_writing
  settles s p raw rest taken empty a =
      let s1 : Session Q = record s { tasks = rest } in
      let (u, e, goes) = bind_request-Goes (record s1 { current_state = opened }) empty in
      let b : Pdu =
        (number_pdu platform (bind_request platform s.config (next smpp s.seq_num_gen).0)
          (record s1 { current_state = opened; seq_num_gen = (next smpp s.seq_num_gen).1 })).0 in
      let v : Session Q = record u { tasks = reading_header ∷ rest } in
      let w : Session Q = w4r_q_put platform b v in
      let (queued, sent, tasks, state, _) = put-parts platform b v in
      let w1 : Session Q = record w { tasks = rest } in
      let (t, read, bound, out, q) =
        bind_resp_lem platform a.kind p raw w1 a.bound a.identifier (inl (state ∙ goes.state)) in
      let ok_status = (==_iff raw.cmd_status smpp.esme_rok).1 a.status in
      let begun : Runs platform s (wrote success ∷ connected success ∷ []) w =
        after (wrote success) v
          (after (connected success) s1 idle (rest, taken, refl)
            (ap (λ o. and_then o (λ x. ok (start reading_header x))) e))
          (
            reading_header ∷ rest,
            subst (λ ts. Takes writing (reading_header ∷ ts) (reading_header ∷ rest))
                (sym goes.tasks) (there here),
            refl,
          )
          (handle_write_idle platform v b goes.last goes.idle) in
      (
        t,
        after (body_read raw success) w1
            (after (header_read raw success) w1 begun
              (rest, subst (λ ts. Takes reading_header ts rest) (sym tasks) here, refl)
              (if_of_false _ _ a.whole))
            (raw, (rest, here, refl), refl) read,
        bound ∙ if_of_true _ _ ok_status,
        (b, out ∙ sent ∙ goes.out, bind_request-Asks platform s.config _ _),
        ap (λ x. is_writing platform (record s { tx_q = x })) (q ∙ queued) ∙ goes.idle,
      )
