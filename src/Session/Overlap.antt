-- ===== src/Session/Overlap.antt =====
-- What do_write does, and what becomes of two writes that overlap: the queue is empty again as soon
-- as its PDU is handed to the socket, so it does not show that a write is under way.
use kiss_smpp.Common.{
  ℕ, suc, ◌+◌, ◌≡◌, ◌≢◌, refl, ap, ◌∙◌, subst, true, false, some, List, ◌∷◌, arith, ◌⊎◌, Bool-cases,
  inl, inr,
}
use kiss_smpp.Smpp.{Pdu}
use kiss_smpp.TransmitQueue.{Priority, push_items}
use kiss_smpp.TransmitQueue.Lists.{pop-push}
use kiss_smpp.Waiting.{find}
use kiss_smpp.Waiting.Map.{find-assign}
use kiss_smpp.Session.{success, Platform, Session, ok, Task, writing}
use kiss_smpp.Session.Write.{
  is_writing, number_pdu, transmit, write_pdu, do_write, handle_write, w4r_q_put, write_next,
  seconds,
}
use kiss_smpp.Session.Tasks.{in_flight}

module _ {Q : Type 0} (platform : Platform Q) where
  open platform use {queue}

  -- The session after do_write on an empty queue.
  abbrev pub sent_at_once : Pdu → Priority → Session Q → Session Q
  sent_at_once pdu p s =
      transmit platform pdu (record s { tx_q = (queue.pop (queue.push s.tx_q pdu p)).1 })

  do_write_idle :
      (pdu : Pdu) (p : Priority) (s : Session Q)
      → is_writing platform s ≡ false
      → do_write platform pdu p s ≡ ok (sent_at_once pdu p s)
  unfolding do_write write_pdu is_writing
  do_write_idle pdu p s h =
      let empty : queue.is_empty s.tx_q ≡ true = ground arith in
      rw (h, (pop-push queue s.tx_q pdu p empty).0)

  do_write_busy :
      (pdu : Pdu) (p : Priority) (s : Session Q)
      → is_writing platform s ≡ true
      → do_write platform pdu p s ≡ ok (record s { tx_q = queue.push s.tx_q pdu p })
  unfolding do_write
  do_write_busy pdu p s h = rw h

  -- The PDU went out at once: the queue is empty, and one more write is under way.
  pub record Goes (pdu : Pdu) (s t : Session Q) : Type 0 where
    pub was_idle : is_writing platform s ≡ false
    pub idle : is_writing platform t ≡ false
    pub out : t.sent ≡ (number_pdu platform pdu s).0 ∷ s.sent
    pub last : t.last_pop ≡ some (number_pdu platform pdu s).0
    pub flying : in_flight t.tasks ≡ suc (in_flight s.tasks)
    pub tasks : t.tasks ≡ writing ∷ s.tasks
    pub generator : t.seq_num_gen ≡ (number_pdu platform pdu s).1.seq_num_gen
    pub map : t.w4r_q ≡ s.w4r_q
    pub state : t.current_state ≡ s.current_state
    pub received : t.rx_q ≡ s.rx_q

  -- The PDU waits at the end of its level of the queue.
  pub record Waits (pdu : Pdu) (p : Priority) (s t : Session Q) : Type 0 where
    pub was_busy : is_writing platform s ≡ true
    pub queued : queue.items t.tx_q ≡ push_items (queue.items s.tx_q) pdu p
    pub rest : t ≡ record s { tx_q = t.tx_q }

  number_pdu-generator :
      (pdu : Pdu) (s : Session Q) (q : Q)
      → (number_pdu platform pdu (record s { tx_q = q })).1.seq_num_gen
        ≡ (number_pdu platform pdu s).1.seq_num_gen
  unfolding number_pdu
  number_pdu-generator pdu s q = ground arith

  sent_at_once-Goes :
      (pdu : Pdu) (p : Priority) (s : Session Q)
      → is_writing platform s ≡ false
      → Goes pdu s (sent_at_once pdu p s)
  unfolding is_writing transmit
  sent_at_once-Goes pdu p s h =
      let empty : queue.is_empty s.tx_q ≡ true = ground arith in
      let empties = pop-push queue s.tx_q pdu p empty in
      record {
        was_idle = h;
        idle = ground arith;
        out = ground arith;
        last = ground arith;
        flying = ground arith;
        tasks = ground arith;
        generator = number_pdu-generator pdu s (queue.pop (queue.push s.tx_q pdu p)).1;
        map = ground arith;
        state = ground arith;
        received = ground arith;
      }

  -- do_write always succeeds. On an empty queue it sends the PDU at once and leaves the queue
  -- empty; otherwise it puts it at the end of its level and changes nothing else.
  pub do_write_lem :
      (pdu : Pdu) (p : Priority) (s : Session Q)
      → (t : Session Q) × (do_write platform pdu p s ≡ ok t) × (Goes pdu s t ⊎ Waits pdu p s t)
  do_write_lem pdu p s = elim (Bool-cases (is_writing platform s)) [
    | inl busy ↦ (
      record s { tx_q = queue.push s.tx_q pdu p },
      do_write_busy pdu p s busy,
      inr (record { was_busy = busy; queued = queue.items_push s.tx_q pdu p; rest = refl }),
    )
    | inr idle ↦
        (sent_at_once pdu p s, do_write_idle pdu p s idle, inl (sent_at_once-Goes pdu p s idle))
  ]

  do_write-Goes :
      (pdu : Pdu) (p : Priority) (s t : Session Q)
      → is_writing platform s ≡ false
      → do_write platform pdu p s ≡ ok t
      → Goes pdu s t
  do_write-Goes pdu p s t h e =
      let same : sent_at_once pdu p s ≡ t = cc (do_write_idle pdu p s h) in
      subst (Goes pdu s) same (sent_at_once-Goes pdu p s h)

  -- Two PDUs written to an idle session, with no handle_write in between, both go to the socket at
  -- once, and the queue remembers only the second.
  pub writes_overlap :
      (a b : Pdu) (p q : Priority) (s t u : Session Q)
      → is_writing platform s ≡ false
      → do_write platform a p s ≡ ok t
      → do_write platform b q t ≡ ok u
      → (u.sent ≡ (number_pdu platform b t).0 ∷ (number_pdu platform a s).0 ∷ s.sent)
        × (in_flight u.tasks ≡ in_flight s.tasks + 2)
        × (u.last_pop ≡ some (number_pdu platform b t).0)
        × (is_writing platform u ≡ false)
  writes_overlap a b p q s t u h e f =
      let first = do_write-Goes a p s t h e in
      let second = do_write-Goes b q t u first.idle f in
      (
        second.out ∙ ap (λ xs. (number_pdu platform b t).0 ∷ xs) first.out,
        omega (arith, first.flying, second.flying),
        second.last,
        second.idle,
      )

  pub handle_write_idle :
      (s : Session Q) (pdu : Pdu)
      → s.last_pop ≡ some pdu
      → is_writing platform s ≡ false
      → handle_write platform success s ≡ ok (w4r_q_put platform pdu s)
  unfolding handle_write write_next w4r_q_put
  handle_write_idle s pdu l h = ground arith

  put_other :
      (s : Session Q) (pdu : Pdu) (k : ℕ)
      → pdu.sequence_number ≢ k
      → find k (w4r_q_put platform pdu s).w4r_q ≡ find k s.w4r_q
  unfolding w4r_q_put
  put_other s pdu k ne = ground (
    arith,
    find-assign pdu.sequence_number k (record { obj = pdu; timestamp = seconds s }) s.w4r_q,
  )

  pub put_same :
      (s : Session Q) (pdu : Pdu)
      → is_writing platform s ≡ false
      → (is_writing platform (w4r_q_put platform pdu s) ≡ false)
        × ((w4r_q_put platform pdu s).last_pop ≡ s.last_pop)
  unfolding is_writing w4r_q_put
  put_same s pdu h = ground arith

  -- handle_write after a success, where the queue is empty: it enters the last popped PDU.
  handled :
      (s v : Session Q) (pdu : Pdu) (ts : List Task)
      → s.last_pop ≡ some pdu
      → is_writing platform s ≡ false
      → handle_write platform success (record s { tasks = ts }) ≡ ok v
      → (is_writing platform v ≡ false)
        × (v.last_pop ≡ some pdu)
        × ((k : ℕ) → pdu.sequence_number ≢ k → find k v.w4r_q ≡ find k s.w4r_q)
  unfolding is_writing
  handled s v pdu ts l h g =
      let s' : Session Q = record s { tasks = ts } in
      let same : w4r_q_put platform pdu s' ≡ v = cc (handle_write_idle s' pdu l h) in
      let kept = put_same s' pdu h in
      (
        subst (λ x. is_writing platform x ≡ false) same kept.0,
        subst (λ x. x.last_pop ≡ some pdu) same (kept.1 ∙ l),
        λ k ne. subst (λ x. find k x.w4r_q ≡ find k s.w4r_q) same (put_other s' pdu k ne),
      )

  -- When the handlers of two overlapping writes have run, the first PDU, whose number is not that
  -- of the second, has not been entered in the map of the PDUs that wait for a response.
  pub overlapped_unrecorded :
      (a b : Pdu) (p q : Priority) (s t u v w : Session Q) (ts us : List Task)
      → is_writing platform s ≡ false
      → do_write platform a p s ≡ ok t
      → do_write platform b q t ≡ ok u
      → handle_write platform success (record u { tasks = ts }) ≡ ok v
      → handle_write platform success (record v { tasks = us }) ≡ ok w
      → (number_pdu platform b t).0.sequence_number ≢ (number_pdu platform a s).0.sequence_number
      → find (number_pdu platform a s).0.sequence_number w.w4r_q
        ≡ find (number_pdu platform a s).0.sequence_number s.w4r_q
  overlapped_unrecorded a b p q s t u v w ts us h e f g k ne =
      let gone = do_write-Goes a p s t h e in
      let second = do_write-Goes b q t u gone.idle f in
      let one = handled u v (number_pdu platform b t).0 ts second.last second.idle g in
      let two = handled v w (number_pdu platform b t).0 us one.1 one.0 k in
      two.2 _ ne
      ∙ one.2 _ ne
      ∙ ap (find (number_pdu platform a s).0.sequence_number) second.map
      ∙ ap (find (number_pdu platform a s).0.sequence_number) gone.map
