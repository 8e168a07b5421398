-- ===== src/Session/Races/Linear.antt =====
-- What the clearing of levels can do to a do_write.
use kiss_smpp.Common.{
  ◌≡◌, refl, sym, ap, ◌∙◌, ◌⊎◌, inl, inr, Bool-cases, true, false, none, some, List, [], ◌∷◌, ◌++◌,
  arith,
}
use kiss_smpp.Smpp.{Pdu}
use kiss_smpp.TransmitQueue.{Priority, message, push_items, pop_items}
use kiss_smpp.Session.{Platform, Session, ok, fault}
use kiss_smpp.Session.Write.{is_writing, number_pdu, transmit, transmit_popped, write_pdu, do_write}
use kiss_smpp.Session.Races.{is_cleared, clear_levels, with_cleared, do_write_cleared}
use kiss_smpp.Session.Races.Levels.{
  clear_all, no_item, clear_all-append, clear_all-push, no_items-eq, clear_all-no_item,
  clear_all-only, pop-only, pop-no_item,
}

module _ {Q : Type 0} (platform : Platform Q) where
  open platform use {queue}

  items-clear_levels :
      (ps : List Priority) (q : Q)
      → queue.items (clear_levels queue ps q) ≡ clear_all ps (queue.items q)
  items-clear_levels [] q = refl
  items-clear_levels (p ∷ ps) q =
      items-clear_levels ps (queue.clear q p) ∙ ap (clear_all ps) (queue.items_clear q p)

  -- The sessions are the same, but for the representation of a queue with the same objects.
  abbrev pub SameSession : Session Q → Session Q → Type 0
  SameSession s t = (queue.items s.tx_q ≡ queue.items t.tx_q) × (s ≡ record t { tx_q = s.tx_q })

  transmit-tx_q :
      (x : Pdu) (s : Session Q) (q r : Q)
      → transmit platform x (record s { tx_q = q })
        ≡ record (transmit platform x (record s { tx_q = r })) { tx_q = q }
  unfolding transmit number_pdu
  transmit-tx_q x s q r = ground arith

  transmit-parts :
      (x : Pdu) (s : Session Q) (q : Q)
      → ((transmit platform x (record s { tx_q = q })).tx_q ≡ q)
        × ((transmit platform x (record s { tx_q = q })).sent
            ≡ (number_pdu platform x s).0 ∷ s.sent)
  unfolding transmit number_pdu
  transmit-parts x s q = ground arith

  transmit-SameSession :
      (ps : List Priority) (x : Pdu) (s : Session Q) (q r : Q)
      → queue.items q ≡ no_item
      → queue.items r ≡ no_item
      → SameSession
          (transmit platform x (record s { tx_q = q }))
          (with_cleared platform ps (transmit platform x (record s { tx_q = r })))
  transmit-SameSession ps x s q r empty empty' =
      let mine = (transmit-parts x s q).0 in
      let other = (transmit-parts x s r).0 in
      (
        ap queue.items mine
            ∙ empty
            ∙ sym (clear_all-no_item ps)
            ∙ ap (clear_all ps) (sym (ap queue.items other ∙ empty'))
            ∙ sym (items-clear_levels ps _),
        transmit-tx_q x s q r
            ∙ ap (λ y. record (transmit platform x (record s { tx_q = r })) { tx_q = y })
                (sym mine),
      )

  -- The queue after the two rounds of clearing around the push.
  abbrev pushed : List Priority → List Priority → Pdu → Priority → Session Q → Q
  pushed b c x p s = clear_levels queue c (queue.push (clear_levels queue b s.tx_q) x p)

  items-pushed :
      (b c : List Priority) (x : Pdu) (p : Priority) (s : Session Q)
      → queue.items (pushed b c x p s)
        ≡ clear_all c (push_items (clear_all b (queue.items s.tx_q)) x p)
  items-pushed b c x p s =
      items-clear_levels c _
      ∙ ap (clear_all c)
          (queue.items_push _ x p ∙ ap (λ i. push_items i x p) (items-clear_levels b s.tx_q))

  items-pushed_idle :
      (b c : List Priority) (x : Pdu) (p : Priority) (s : Session Q)
      → queue.is_empty s.tx_q ≡ true
      → queue.items (pushed b c x p s) ≡ clear_all c (push_items no_item x p)
  items-pushed_idle b c x p s h =
      items-pushed b c x p s
      ∙ ap (λ i. clear_all c (push_items (clear_all b i) x p))
          (no_items-eq _ (sym (queue.is_empty_items s.tx_q) ∙ h))
      ∙ ap (λ i. clear_all c (push_items i x p)) (clear_all-no_item b)

  write_popped :
      (x : Pdu) (s : Session Q) (q : Q)
      → (queue.pop q).0 ≡ some x
      → write_pdu platform (record s { tx_q = q })
        ≡ ok (transmit platform x (record s { tx_q = (queue.pop q).1 }))
  unfolding write_pdu transmit_popped
  write_popped x s q h = rw h refl

  write_nothing :
      (s : Session Q) (q : Q)
      → (queue.pop q).0 ≡ none
      → write_pdu platform (record s { tx_q = q }) ≡ fault
  unfolding write_pdu transmit_popped
  write_nothing s q h = rw h refl

  cleared_idle :
      (b c : List Priority) (x : Pdu) (p : Priority) (s : Session Q)
      → queue.is_empty s.tx_q ≡ true
      → do_write_cleared platform b c x p s
        ≡ write_pdu platform (record s { tx_q = pushed b c x p s })
  unfolding do_write_cleared
  cleared_idle b c x p s h = rw h refl

  pub cleared_busy :
      (b c : List Priority) (x : Pdu) (p : Priority) (s : Session Q)
      → queue.is_empty s.tx_q ≡ false
      → do_write_cleared platform b c x p s ≡ ok (record s { tx_q = pushed b c x p s })
  unfolding do_write_cleared
  cleared_busy b c x p s h = rw h refl

  -- With nothing cleared in between it is do_write.
  pub cleared-do_write :
      (x : Pdu) (p : Priority) (s : Session Q)
      → do_write_cleared platform [] [] x p s ≡ do_write platform x p s
  unfolding do_write_cleared do_write is_writing
  cleared-do_write x p s = ground arith

  -- An idle session with the object alone in its queue when it is popped.
  pub written_alone :
      (b c : List Priority) (x : Pdu) (p : Priority) (s : Session Q)
      → queue.is_empty s.tx_q ≡ true
      → is_cleared p c ≡ false
      → (q : Q) × (do_write_cleared platform b c x p s
          ≡ ok (transmit platform x (record s { tx_q = q })))
        × (queue.items q ≡ no_item)
  written_alone b c x p s h stays = elim (clear_all-only c p x) [
    | inl (gone, _) ↦ absurd (cc)
    | inr (_, alone) ↦
        let items = items-pushed_idle b c x p s h ∙ alone in
        (
          (queue.pop (pushed b c x p s)).1,
          cleared_idle b c x p s h
              ∙ write_popped x s (pushed b c x p s)
                  (queue.pop_object _ ∙ ap (λ i. (pop_items i).0) items ∙ (pop-only x p).0),
          queue.items_pop _ ∙ ap (λ i. (pop_items i).1) items ∙ (pop-only x p).1,
        )
  ]

  -- What happens to a do_write on an idle session while close_connection clears levels of the
  -- queue: if the level of its PDU is cleared between the push and the pop, write_pdu dereferences
  -- the null pointer that an empty queue returns; otherwise the PDU is written, whatever else is
  -- cleared.
  pub cleared_faults :
      (b c : List Priority) (x : Pdu) (p : Priority) (s : Session Q)
      → is_writing platform s ≡ false
      → ((is_cleared p c ≡ true) × (do_write_cleared platform b c x p s ≡ fault))
        ⊎ ((is_cleared p c ≡ false)
            × ((t : Session Q) × (do_write_cleared platform b c x p s ≡ ok t)
                × (t.sent ≡ (number_pdu platform x s).0 ∷ s.sent)))
  unfolding is_writing
  cleared_faults b c x p s idle = elim (clear_all-only c p x) [
    | inl (gone, nothing) ↦
        let h : queue.is_empty s.tx_q ≡ true = ground arith in
        let items = items-pushed_idle b c x p s h ∙ nothing in
        inl (
          gone,
          cleared_idle b c x p s h
              ∙ write_nothing s (pushed b c x p s)
                  (queue.pop_object _ ∙ ap (λ i. (pop_items i).0) items ∙ pop-no_item),
        )
    | inr (stays, _) ↦
        let h : queue.is_empty s.tx_q ≡ true = ground arith in
        let (q, e, _) = written_alone b c x p s h stays in
        inr (stays, (_, e, (transmit-parts x s q).1))
  ]

  -- A message is safe from close_connection. Whatever levels but that of the messages are cleared
  -- in the middle of a do_write of a message, it ends as if they had been cleared after it: the
  -- sessions are the same, but for the representation of a queue with the same objects.
  pub message-do_write :
      (b c : List Priority) (x : Pdu) (s : Session Q)
      → is_cleared message b ≡ false
      → is_cleared message c ≡ false
      → (t u : Session Q) × (do_write_cleared platform b c x message s ≡ ok t)
        × (do_write platform x message s ≡ ok u)
        × SameSession t (with_cleared platform (b ++ c) u)
  message-do_write b c x s hb hc = elim (Bool-cases (queue.is_empty s.tx_q)) [
    | inl idle ↦
        let (q, e, items) = written_alone b c x message s idle hc in
        let (r, f, items') = written_alone [] [] x message s idle refl in
        (
          transmit platform x (record s { tx_q = q }),
          transmit platform x (record s { tx_q = r }),
          e,
          sym (cleared-do_write x message s) ∙ f,
          transmit-SameSession (b ++ c) x s q r items items',
        )
    | inr busy ↦ (
      record s { tx_q = pushed b c x message s },
      record s { tx_q = queue.push s.tx_q x message },
      cleared_busy b c x message s busy,
      sym (cleared-do_write x message s) ∙ cleared_busy [] [] x message s busy,
      (
        items-pushed b c x message s
            ∙ ap (clear_all c) (sym (clear_all-push b (queue.items s.tx_q) x hb))
            ∙ sym (clear_all-append b c (push_items (queue.items s.tx_q) x message))
            ∙ ap (clear_all (b ++ c)) (sym (queue.items_push s.tx_q x message))
            ∙ sym (items-clear_levels (b ++ c) (queue.push s.tx_q x message)),
        refl,
      ),
    )
  ]
