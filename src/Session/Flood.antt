-- ===== src/Session/Flood.antt =====
-- How many requests wait for a response: canSend looks at the ten that are allowed, and do_write
-- does not.
use kiss_smpp.Common.{
  ℕ, zero, suc, ◌+◌, ◌<◌, ◌≤◌, ◌≡◌, refl, sym, ap, subst, ◌∙◌, true, false, List, [], ◌∷◌, inl, inr,
  arith, length,
}
use kiss_smpp.Smpp.{Pdu, submit_sm, is_response}
use kiss_smpp.Sequence.{next}
use kiss_smpp.Waiting.{TimeStampedPdu, AwaitingResponseMap, assign}
use kiss_smpp.Session.{success, writing, Platform, Session, ok}
use kiss_smpp.Session.Write.{is_writing, number_pdu, seconds}
use kiss_smpp.Session.Recovery.{Runs-append}
use kiss_smpp.Session.Loop.{Takes, Event, wrote, sends, here, react, Runs, idle, after}
use kiss_smpp.Session.Overlap.{Goes, handle_write_idle}
use kiss_smpp.Session.Sending.{send_pdu_lem, permitted}
use kiss_smpp.Session.Awaiting.{w4r_q_put_lem}

-- Every key of the map is below `k`.
abbrev pub AllBelow : ℕ → AwaitingResponseMap → Type 0
AllBelow k [] = Unit
AllBelow k ((j, t) ∷ m) = (j < k) × AllBelow k m

assign-AllBelow :
    (k : ℕ) (t : TimeStampedPdu) (m : AwaitingResponseMap)
    → AllBelow k m
    → (length (assign k t m) ≡ suc (length m)) × AllBelow (suc k) (assign k t m)
unfolding assign
assign-AllBelow k t [] h = (refl, omega arith)
assign-AllBelow k t ((j, u) ∷ m) h = let ih = assign-AllBelow k t m h.1 in ground arith

-- The events of `n` messages that are sent one after another, the latest first.
abbrev pub flood : Pdu → ℕ → List Event
flood pdu zero = []
flood pdu (suc n) = wrote success ∷ sends pdu ∷ flood pdu n

module _ {Q : Type 0} (platform : Platform Q) where
  open platform use {smpp}

  -- Nothing waits to be written, a submit_sm is permitted, and the next number is above those of
  -- the requests that wait.
  pub record IsIdle (s : Session Q) : Type 0 where
    pub empty : is_writing platform s ≡ false
    pub may : permitted s.current_state submit_sm ≡ true
    pub below : AllBelow s.seq_num_gen s.w4r_q

  -- A PDU that has no number of its own gets the next one.
  numbered :
      (pdu : Pdu) (s : Session Q)
      → pdu.sequence_number ≤ smpp.seq_min
      → s.seq_num_gen < smpp.seq_max
      → ((number_pdu platform pdu s).0 ≡ record pdu { sequence_number = s.seq_num_gen })
        × ((number_pdu platform pdu s).1.seq_num_gen ≡ suc s.seq_num_gen)
  unfolding number_pdu next
  numbered pdu s low less = ground (arith, smpp.seq_max_lt)

  -- One message that is sent and written.
  one_more :
      (pdu : Pdu) (s : Session Q)
      → pdu.command_id ≡ smpp.code submit_sm
      → pdu.sequence_number ≤ smpp.seq_min
      → s.seq_num_gen < smpp.seq_max
      → IsIdle s
      → (t : Session Q) × Runs platform s (flood pdu 1) t
        × IsIdle t
        × (length t.w4r_q ≡ suc (length s.w4r_q))
        × (t.seq_num_gen ≡ suc s.seq_num_gen)
  unfolding react is_response is_writing
  one_more pdu s c low less i =
      let (u, sent, how) = send_pdu_lem platform submit_sm pdu s c in
      elim how [
        | inl (_, inl goes) ↦ wrote_one u sent goes
        | inl (_, inr waits) ↦ let busy = waits.was_busy in let still = i.empty in absurd (cc)
        | inr (denied, _) ↦ let may = i.may in absurd (cc)
      ]
    where
      wrote_one :
          (u : Session Q)
          → react platform (sends pdu) s ≡ ok u
          → Goes platform pdu s u
          → (t : Session Q) × Runs platform s (flood pdu 1) t
            × IsIdle t
            × (length t.w4r_q ≡ suc (length s.w4r_q))
            × (t.seq_num_gen ≡ suc s.seq_num_gen)
      wrote_one u sent goes =
          let (pdu_eq, gen) = numbered pdu s low less in
          let pdu' : Pdu = (number_pdu platform pdu s).0 in
          let ready : Session Q = record u { tasks = s.tasks } in
          let entry : TimeStampedPdu = record { obj = pdu'; timestamp = seconds ready } in
          let number : pdu'.sequence_number ≡ s.seq_num_gen = ap (λ x. x.sequence_number) pdu_eq in
          let command : pdu'.command_id ≡ smpp.code submit_sm = ap (λ x. x.command_id) pdu_eq ∙ c in
          let (grown, above) =
            subst
              (λ k.
                (length (assign k entry u.w4r_q) ≡ suc (length u.w4r_q))
                × AllBelow (suc s.seq_num_gen) (assign k entry u.w4r_q))
              (sym number)
              (assign-AllBelow s.seq_num_gen entry u.w4r_q
                (subst (AllBelow s.seq_num_gen) (sym goes.map) i.below)) in
          let next_gen : u.seq_num_gen ≡ suc s.seq_num_gen = goes.generator ∙ gen in
          (
            record ready { w4r_q = assign pdu'.sequence_number entry u.w4r_q },
            after (wrote success) ready (after (sends pdu) s idle refl sent)
                (s.tasks, subst (λ ts. Takes writing ts s.tasks) (sym goes.tasks) here, refl)
                (handle_write_idle platform ready pdu' goes.last goes.idle
                  ∙ ap ok (w4r_q_put_lem platform submit_sm pdu' ready command)),
            record {
              empty = goes.idle;
              may = ap (λ p. permitted p submit_sm) goes.state ∙ i.may;
              below =
                  subst (λ k. AllBelow k (assign pdu'.sequence_number entry u.w4r_q)) (sym next_gen)
                    above;
            },
            grown ∙ ap (λ m. suc (length m)) goes.map,
            next_gen,
          )

  -- The limit of ten requests without a response is not kept. From a session with nothing to write
  -- that permits a submit_sm, with numbers left and the next one above those of the requests that
  -- wait, `n` submit_sm PDUs with no number of their own that are sent one after another, each
  -- written before the next is sent, are all written at once, and `n` more requests wait for their
  -- responses.
  pub flooded :
      (pdu : Pdu) (n : ℕ) (s : Session Q)
      → pdu.command_id ≡ smpp.code submit_sm
      → pdu.sequence_number ≤ smpp.seq_min
      → s.seq_num_gen + n ≤ smpp.seq_max
      → IsIdle s
      → (t : Session Q) × Runs platform s (flood pdu n) t
        × IsIdle t
        × (length t.w4r_q ≡ length s.w4r_q + n)
        × (t.seq_num_gen ≡ s.seq_num_gen + n)
  flooded pdu zero s c low enough i = (s, idle, i, omega arith, omega arith)
  flooded pdu (suc n) s c low enough i =
      let (t, r, j, grown, gen) = flooded pdu n s c low (omega arith) i in
      let (u, r', k, grown', gen') = one_more pdu t c low (omega arith) j in
      (u, Runs-append platform r r', k, omega arith, omega arith)
