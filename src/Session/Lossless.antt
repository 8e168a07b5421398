-- ===== src/Session/Lossless.antt =====
-- No message that the session accepted is lost before it is written.
use kiss_smpp.Common.{
  ℕ, ◌+◌, ◌≡◌, ◌≤◌, Option, none, some, [], ◌∷◌, arith, total, total-append, ◌&&◌,
}
use kiss_smpp.Smpp.{Pdu}
use kiss_smpp.Sequence.{next}
use kiss_smpp.TransmitQueue.{Priority, session, response, message, Items, push_items, pop_items}
use kiss_smpp.TransmitQueue.Lists.{items-clear_session_queues}
use kiss_smpp.Session.{ErrorCode, success, Platform, Session}
use kiss_smpp.Session.Write.{
  is_writing, can_send, number_pdu, transmit, transmit_popped, write_pdu, do_write, w4r_q_put,
  write_next, written, write_failed, handle_write, set_current_state,
}
use kiss_smpp.Session.Stable.{After, Stable, if_keeps, if_keeps_session}
use kiss_smpp.Session.Stable.Resend.{w4r_q_age_cleanup-After}

-- What a measure counts in the messages, and in the object that was popped.
module _ (f : Pdu → ℕ) where
  abbrev pub counted : Option Pdu → ℕ
  counted none = 0
  counted (some x) = f x

  push_items-total :
      (i : Items) (x : Pdu) (p : Priority)
      → total counted i.messages ≤ total counted (push_items i x p).messages
  push_items-total i x session = omega arith
  push_items-total i x response = omega arith
  push_items-total i x message =
      let h = total-append counted i.messages (some x ∷ []) in omega arith

  pop_items-total :
      (i : Items)
      → total counted i.messages ≤ counted (pop_items i).0 + total counted (pop_items i).1.messages
  unfolding pop_items
  pop_items-total i = ground arith

module _ {Q : Type 0} (platform : Platform Q) (f : Pdu → ℕ) where
  open platform use {smpp, queue}

  -- What waits among the messages of the session, or was written.
  abbrev pub outgoing : Session Q → ℕ
  outgoing s = total (counted f) (queue.items s.tx_q).messages + total f s.sent

  module _ (unnumbered : (pdu : Pdu) (n : ℕ) → f (record pdu { sequence_number = n }) ≡ f pdu)
      (kept : (q : Q) (o : Option Pdu)
        → total (counted f) (queue.items q).messages
          ≤ total (counted f) (queue.items (queue.push_back_last_pop q o).0).messages)
      (n : ℕ) where
    abbrev pub Outgoing : Session Q → Type 0
    Outgoing s = n ≤ outgoing s

    pub number_pdu-total : (pdu : Pdu) (s : Session Q) → f (number_pdu platform pdu s).0 ≡ f pdu
    unfolding number_pdu
    number_pdu-total pdu s = ground (arith, unnumbered pdu (next smpp s.seq_num_gen).0)

    number_pdu-tx_q :
        (pdu : Pdu) (s : Session Q)
        → ((number_pdu platform pdu s).1.tx_q ≡ s.tx_q)
          × ((number_pdu platform pdu s).1.sent ≡ s.sent)
    unfolding number_pdu
    number_pdu-tx_q pdu s = ground arith

    -- Writing the object that was popped makes up for its leaving the queue.
    transmit-Outgoing :
        (pdu : Pdu) (s : Session Q) → n ≤ f pdu + outgoing s → Outgoing (transmit platform pdu s)
    unfolding transmit
    transmit-Outgoing pdu s h =
        let e = number_pdu-total pdu s in
        let (queued, out) = number_pdu-tx_q pdu s in rw (queued, out) (rw e (omega arith))

    transmit_popped-Outgoing :
        (o : Option Pdu) (s : Session Q)
        → n ≤ counted f o + outgoing s
        → After Outgoing (transmit_popped platform o s)
    unfolding transmit_popped
    transmit_popped-Outgoing none s h = tt
    transmit_popped-Outgoing (some pdu) s h = transmit-Outgoing pdu s h

    pop-total :
        (q : Q)
        → total (counted f) (queue.items q).messages
          ≤ counted f (queue.pop q).0 + total (counted f) (queue.items (queue.pop q).1).messages
    pop-total q = rw (queue.pop_object, queue.items_pop) (pop_items-total f (queue.items q))

    push-total :
        (q : Q) (x : Pdu) (p : Priority)
        → total (counted f) (queue.items q).messages
          ≤ total (counted f) (queue.items (queue.push q x p)).messages
    push-total q x p = rw (queue.items_push) (push_items-total f (queue.items q) x p)

    write_pdu-Outgoing : (s : Session Q) → Outgoing s → After Outgoing (write_pdu platform s)
    unfolding write_pdu
    write_pdu-Outgoing s h =
        let k = pop-total s.tx_q in transmit_popped-Outgoing (queue.pop s.tx_q).0 _ (omega arith)

    do_write-Outgoing :
        (s : Session Q) (pdu : Pdu) (p : Priority)
        → Outgoing s
        → After Outgoing (do_write platform pdu p s)
    unfolding do_write
    do_write-Outgoing s pdu p h =
        let k = push-total s.tx_q pdu p in
        if_keeps Outgoing (is_writing platform s) _ _ (omega arith)
          (write_pdu-Outgoing _ (omega arith))

    put-Outgoing : (pdu : Pdu) (s : Session Q) → Outgoing s → Outgoing (w4r_q_put platform pdu s)
    unfolding w4r_q_put
    put-Outgoing pdu s h = ground arith

    written-Outgoing :
        (o : Option Pdu) (s : Session Q) → Outgoing s → After Outgoing (written platform o s)
    unfolding written write_next
    written-Outgoing none s h = tt
    written-Outgoing (some pdu) s h =
        let t = w4r_q_put platform pdu s in
        if_keeps Outgoing (can_send t && is_writing platform t) _ _
          (write_pdu-Outgoing t (put-Outgoing pdu s h)) (put-Outgoing pdu s h)

    write_failed-Outgoing : (s : Session Q) → Outgoing s → Outgoing (write_failed platform s)
    unfolding write_failed set_current_state
    write_failed-Outgoing s h =
        let k = kept s.tx_q s.last_pop in
        if_keeps_session Outgoing s.stop_flag _ _ (omega arith) (omega arith)

    handle_write-Outgoing :
        (e : ErrorCode) (s : Session Q) → Outgoing s → After Outgoing (handle_write platform e s)
    unfolding handle_write
    handle_write-Outgoing success s h = written-Outgoing s.last_pop s h
    handle_write-Outgoing _ s h = write_failed-Outgoing s h

    pub Stable-Outgoing : Stable platform Outgoing
    Stable-Outgoing = record {
      flags = λ s p a b h. h;
      receives = λ s pdu h. h;
      counts = λ s n h. h;
      timers = λ s a b h. h;
      passes = λ s d h. h;
      starts = λ s t ne h. h;
      ends = λ s t rest ne taken h. h;
      numbers = λ s h. h;
      erases = λ s k h. h;
      shuts = λ s h. rw (items-clear_session_queues queue s.tx_q) h;
      writes = do_write-Outgoing;
      written = λ s e rest taken h. handle_write-Outgoing e _ h;
      ages = λ s n due h.
          w4r_q_age_cleanup-After platform do_write-Outgoing (λ s k h. h) (λ s o h. h) _ h;
    }
