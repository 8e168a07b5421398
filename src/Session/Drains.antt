-- ===== src/Session/Drains.antt =====
-- The order in which a session writes what waits in its queue.
use mathlib.Core.List.{map, reverse, reverse-cons, append_assoc}
use kiss_smpp.Common.{
  ℕ, zero, suc, ◌+◌, ◌<◌, ◌≤◌, ◌≡◌, refl, sym, ap, subst, ◌∙◌, true, false, some, List, [], ◌∷◌,
  ◌++◌, length, arith, ltb,
}
use kiss_smpp.Smpp.{Pdu, SharedSmppPdu}
use kiss_smpp.TransmitQueue.{Items, no_items, pop_items}
use kiss_smpp.Waiting.{TimeStampedPdu, AwaitingResponseMap, assign, time_stamped_pdu}
use kiss_smpp.Session.{success, writing, Platform, Session, ok, Task}
use kiss_smpp.Session.Write.{
  is_bound, can_send, is_writing, number_pdu, transmit, transmit_popped, write_pdu, w4r_q_put,
  write_next, written, handle_write, seconds,
}
use kiss_smpp.Session.Loop.{Event, wrote, Takes, here, react, Runs, idle, after}
use kiss_smpp.Session.Recovery.{Runs-append}

-- The objects of a queue, in the order of their levels.
abbrev pub in_order : Items → List SharedSmppPdu
in_order i = i.sessions ++ (i.responses ++ i.messages)

abbrev pub wrote_times : ℕ → List Event
wrote_times zero = []
wrote_times (suc n) = wrote success ∷ wrote_times n

abbrev pub unnumbered : Pdu → Pdu
unnumbered pdu = record pdu { sequence_number = 0 }

wrote_times-snoc : (n : ℕ) → wrote_times n ++ wrote success ∷ [] ≡ wrote success ∷ wrote_times n
wrote_times-snoc zero = refl
wrote_times-snoc (suc n) = ap (λ es. wrote success ∷ es) (wrote_times-snoc n)

-- The next object of the queue, and what is left.
pop_items-in_order :
    (i : Items) (o : SharedSmppPdu) (rest : List SharedSmppPdu)
    → in_order i ≡ o ∷ rest
    → (no_items i ≡ false) × ((pop_items i).0 ≡ o) × (in_order (pop_items i).1 ≡ rest)
unfolding pop_items
pop_items-in_order i o rest h = ground arith

length-assign :
    (k : ℕ) (t : TimeStampedPdu) (m : AwaitingResponseMap) → length (assign k t m) ≤ suc (length m)
unfolding assign
length-assign k t [] = omega arith
length-assign k t ((j, u) ∷ m) = ground (arith, length-assign k t m)

module _ {Q : Type 0} (platform : Platform Q) where
  open platform use {smpp, queue}

  pub put-parts :
      (pdu : Pdu) (s : Session Q)
      → ((w4r_q_put platform pdu s).tx_q ≡ s.tx_q)
        × ((w4r_q_put platform pdu s).sent ≡ s.sent)
        × ((w4r_q_put platform pdu s).tasks ≡ s.tasks)
        × ((w4r_q_put platform pdu s).current_state ≡ s.current_state)
        × (length (w4r_q_put platform pdu s).w4r_q ≤ suc (length s.w4r_q))
  unfolding w4r_q_put
  put-parts pdu s =
      ground (arith, length-assign pdu.sequence_number (time_stamped_pdu pdu (seconds s)) s.w4r_q)

  number_pdu-unnumbered :
      (pdu : Pdu) (s : Session Q) → unnumbered (number_pdu platform pdu s).0 ≡ unnumbered pdu
  unfolding number_pdu
  number_pdu-unnumbered pdu s = ground arith

  -- The object of the queue that is next is written.
  record WritesNext (pdu : Pdu) (rest : List SharedSmppPdu) (s t : Session Q) : Type 0 where
    out : map unnumbered t.sent ≡ unnumbered pdu ∷ map unnumbered s.sent
    left : in_order (queue.items t.tx_q) ≡ rest
    last : (x : Pdu) × (t.last_pop ≡ some x)
    tasks : t.tasks ≡ writing ∷ s.tasks
    state : t.current_state ≡ s.current_state
    waiting : t.w4r_q ≡ s.w4r_q

  transmit-parts :
      (pdu : Pdu) (s : Session Q) (q : Q)
      → let t = transmit platform pdu (record s { tx_q = q }) in
        (t.tx_q ≡ q)
        × (t.sent ≡ (number_pdu platform pdu s).0 ∷ s.sent)
        × (t.last_pop ≡ some (number_pdu platform pdu s).0)
        × (t.tasks ≡ writing ∷ s.tasks)
        × (t.current_state ≡ s.current_state)
        × (t.w4r_q ≡ s.w4r_q)
  unfolding transmit number_pdu
  transmit-parts pdu s q = ground arith

  transmit-WritesNext :
      (pdu : Pdu) (rest : List SharedSmppPdu) (s : Session Q) (q : Q)
      → in_order (queue.items q) ≡ rest
      → WritesNext pdu rest s (transmit platform pdu (record s { tx_q = q }))
  transmit-WritesNext pdu rest s q h =
      let (queued, out, last, tasks, state, waiting) = transmit-parts pdu s q in
      record {
        out =
            ap (map unnumbered) out
            ∙ ap (λ x. x ∷ map unnumbered s.sent) (number_pdu-unnumbered pdu s);
        left = ap (λ r. in_order (queue.items r)) queued ∙ h;
        last = (_, last);
        tasks = tasks;
        state = state;
        waiting = waiting;
      }

  write_next-WritesNext :
      (pdu : Pdu) (rest : List SharedSmppPdu) (s : Session Q)
      → in_order (queue.items s.tx_q) ≡ some pdu ∷ rest
      → is_bound s.current_state ≡ true
      → length s.w4r_q < 10
      → (t : Session Q) × (write_next platform s ≡ ok t) × WritesNext pdu rest s t
  unfolding write_next can_send is_writing write_pdu transmit_popped
  write_next-WritesNext pdu rest s waits bound room =
      let (some_waits, next, left) =
        pop_items-in_order (queue.items s.tx_q) (some pdu) rest waits in
      let free : ltb (length s.w4r_q) 10 ≡ true = ground arith in
      let busy : queue.is_empty s.tx_q ≡ false = queue.is_empty_items s.tx_q ∙ some_waits in
      let got : (queue.pop s.tx_q).0 ≡ some pdu = queue.pop_object s.tx_q ∙ next in
      (
        transmit platform pdu (record s { tx_q = (queue.pop s.tx_q).1 }),
        rw (free, bound, busy, got) refl,
        transmit-WritesNext pdu rest s (queue.pop s.tx_q).1
            (ap in_order (queue.items_pop s.tx_q) ∙ left),
      )

  -- handle_write after a success, with room in the map for its PDU and one more.
  handle_write-WritesNext :
      (x pdu : Pdu) (rest : List SharedSmppPdu) (s : Session Q)
      → s.last_pop ≡ some x
      → in_order (queue.items s.tx_q) ≡ some pdu ∷ rest
      → is_bound s.current_state ≡ true
      → suc (length s.w4r_q) < 10
      → (t : Session Q) × (handle_write platform success s ≡ ok t)
        × WritesNext pdu rest (w4r_q_put platform x s) t
  unfolding handle_write written
  handle_write-WritesNext x pdu rest s last waits bound room =
      let (queued, sent, tasks, state, grown) = put-parts x s in
      let (t, e, next) =
        write_next-WritesNext pdu rest (w4r_q_put platform x s)
          (ap (λ q. in_order (queue.items q)) queued ∙ waits) (ap is_bound state ∙ bound)
          (omega arith) in
      (t, ap (λ o. written platform o s) last ∙ e, next)

  -- The queue is written out in its order. If a session is bound, the write of a PDU is under way,
  -- the queue holds no null pointer and the map has room for that PDU and all that wait, then as
  -- many ends of writes without an error as PDUs wait lead to a session with an empty queue that
  -- has written them all, but for their numbers as they were: session management first, then
  -- responses, then messages, those of one level in their order in the queue.
  pub drains_in_order :
      (ps : List Pdu) (x : Pdu) (s : Session Q) (rest : List Task)
      → in_order (queue.items s.tx_q) ≡ map some ps
      → is_bound s.current_state ≡ true
      → s.last_pop ≡ some x
      → s.tasks ≡ writing ∷ rest
      → length s.w4r_q + length ps < 10
      → (t : Session Q) × Runs platform s (wrote_times (length ps)) t
        × (in_order (queue.items t.tx_q) ≡ [])
        × (map unnumbered t.sent ≡ reverse (map unnumbered ps) ++ map unnumbered s.sent)
  unfolding react
  drains_in_order [] x s rest waits bound last tasks room = (s, idle, waits, refl)
  drains_in_order (p ∷ ps) x s rest waits bound last tasks room =
      let begun : Session Q = record s { tasks = rest } in
      let (put_queued, put_sent, put_tasks, put_state, grown) = put-parts x begun in
      let (u, e, next) =
        handle_write-WritesNext x p (map some ps) begun last waits bound (omega arith) in
      let (y, last') = next.last in
      let (t, runs, empty, out) =
        drains_in_order ps y u rest next.left (ap is_bound (next.state ∙ put_state) ∙ bound) last'
          (next.tasks ∙ ap (λ ts. writing ∷ ts) put_tasks)
          (let w = ap length next.waiting in omega arith) in
      (
        t,
        subst (λ es. Runs platform s es t) (wrote_times-snoc (length ps))
            (Runs-append platform
              (after (wrote success) begun idle
                (rest, subst (λ ts. Takes writing ts rest) (sym tasks) here, refl) e)
              runs),
        empty,
        out
            ∙ ap (λ xs. reverse (map unnumbered ps) ++ xs)
                (next.out ∙ ap (λ xs. unnumbered p ∷ map unnumbered xs) put_sent)
            ∙ sym (
                append_assoc (reverse (map unnumbered ps)) (unnumbered p ∷ [])
                  (map unnumbered s.sent))
            ∙ ap (λ xs. xs ++ map unnumbered s.sent)
                (sym (reverse-cons (unnumbered p) (map unnumbered ps))),
      )
