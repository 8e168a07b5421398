-- ===== src/Daemon/Delivers.antt =====
-- From a request of the send handler to the session: the handler, sendingProcessor and send_pdu
-- together.
use kiss_smpp.Common.{
  suc, ◌≡◌, refl, sym, ap, ◌∙◌, true, false, List, [], ◌∷◌, ◌++◌, length, ◌⊎◌, inl, inr, some, none,
}
use kiss_smpp.Smpp.{Smpp, Pdu, CommandId, MessageFields, message_body, submit_sm}
use kiss_smpp.Config.{Settings}
use kiss_smpp.TransmitQueue.{message}
use kiss_smpp.Session.{Platform, Session}
use kiss_smpp.Session.Overlap.{Goes, Waits}
use kiss_smpp.Session.Sending.{send_pdu_lem, permitted}
use kiss_smpp.Session.Stable.{After-ok}
use kiss_smpp.Session.Diagram.{view_of}
use kiss_smpp.Session.Diagram.Writes.{Shows, send_pdu-Shows}
use kiss_smpp.SendHandler.{Request, Response, run, got, submit_fields, push_or_report}
use kiss_smpp.Daemon.{
  Daemon, did, sending_processor, send_from, sent_to, passes, next_pass, SharedSmppPdu,
}
use kiss_smpp.Daemon.Sends.{sending_processor_on}
use Prim.Native.String.{String}

-- Every PDU of the list is of a command of the protocol.
abbrev pub AllCommands : Smpp → List SharedSmppPdu → Type 0
AllCommands smpp [] = Unit
AllCommands smpp (none ∷ xs) = AllCommands smpp xs
AllCommands smpp (some x ∷ xs) =
    ((c : CommandId) × (x.command_id ≡ smpp.code c)) × AllCommands smpp xs

-- The submit_sm of a request, as the queue holds it.
abbrev pub submission : Smpp → MessageFields → Pdu
submission smpp f = record (smpp.create submit_sm) { body = message_body f }

pub run_got :
    (smpp : Smpp) (what : String → String) (cfg : Settings) (request : Request)
    (q : List SharedSmppPdu) (response : Response) (f : MessageFields)
    → submit_fields cfg request ≡ got f
    → (run smpp what cfg request q response).0 ≡ q ++ some (submission smpp f) ∷ []
unfolding run push_or_report
run_got smpp what cfg request q response f e = rw e refl

module _ {Q : Type 0} (platform : Platform Q) where
  open platform use {smpp}

  -- What send_pdu does with a PDU of the command `c`.
  abbrev Sent : CommandId → Pdu → Session Q → Session Q → Type 0
  Sent c pdu s t =
      (permitted s.current_state c ≡ true)
        × (Goes platform pdu s t ⊎ Waits platform pdu message s t)
      ⊎ (permitted s.current_state c ≡ false) × (t ≡ s)

  -- A pass sends the first PDU of the buffer, and the session stays in its state.
  one_pass :
      (c : CommandId) (pdu : Pdu) (rest : List SharedSmppPdu) (d : Daemon Q)
      → d.running ≡ true
      → pdu.command_id ≡ smpp.code c
      → (t : Session Q) × (sending_processor platform
            (record d { sending_buffer = some pdu ∷ rest })
          ≡ did (record d { sending_buffer = rest; session = t }))
        × Sent c pdu d.session t
        × (t.current_state ≡ d.session.current_state)
  unfolding send_from sent_to
  one_pass c pdu rest d on f =
      let (t, r, how) = send_pdu_lem platform c pdu d.session f in
      let (same, flag) =
        After-ok (Shows (view_of d.session)) _ t r
          (send_pdu-Shows platform (view_of d.session) pdu d.session (refl, refl)) in
      (
        t,
        sending_processor_on platform (record d { sending_buffer = some pdu ∷ rest }) on
            ∙ rw r refl,
        how,
        same,
      )

  drain :
      (q : List SharedSmppPdu) (c : CommandId) (pdu : Pdu) (d : Daemon Q)
      → d.running ≡ true
      → AllCommands smpp q
      → pdu.command_id ≡ smpp.code c
      → (s t : Session Q) × (passes
            (sending_processor platform)
            (suc (length q))
            (record d { sending_buffer = q ++ some pdu ∷ [] })
          ≡ did (record d { sending_buffer = []; session = t }))
        × (s.current_state ≡ d.session.current_state)
        × Sent c pdu s t
  unfolding passes next_pass send_from sending_processor
  drain [] c pdu d on all f =
      let (t, pass, sent, same) = one_pass c pdu [] d on f in
      (d.session, t, rw pass refl, refl, sent)
  drain (none ∷ xs) c pdu d on all f =
      let (s, t, rest, state, sent) = drain xs c pdu d on all f in
      (
        s,
        t,
        rw
            (sending_processor_on platform
              (record d { sending_buffer = none ∷ xs ++ some pdu ∷ [] }) on)
            rest,
        state,
        sent,
      )
  drain (some x ∷ xs) c pdu d on ((b, g), all) f =
      let (u, pass, _, same) = one_pass b x (xs ++ some pdu ∷ []) d on g in
      let (s, t, rest, state, sent) = drain xs c pdu (record d { session = u }) on all f in
      (s, t, rw pass rest, state ∙ same, sent)

  -- A request whose lookups all succeed reaches the session. If the daemon runs, its session is in
  -- a state that permits a submit_sm and every PDU of the sending buffer is of a command of the
  -- protocol, then as many passes of sendingProcessor as the buffer is long, with the new PDU and
  -- with null pointers, empty it and give the session the submit_sm of the request last. The
  -- session is still in the same state then, and the submit_sm goes out or waits among its
  -- messages.
  pub request_delivered :
      (what : String → String) (cfg : Settings) (request : Request) (response : Response)
      (f : MessageFields) (d : Daemon Q)
      → d.running ≡ true
      → AllCommands smpp d.sending_buffer
      → permitted d.session.current_state submit_sm ≡ true
      → submit_fields cfg request ≡ got f
      → (s t : Session Q) × (passes
            (sending_processor platform)
            (suc (length d.sending_buffer))
            (record d { sending_buffer = (run smpp what cfg request d.sending_buffer response).0 })
          ≡ did (record d { sending_buffer = []; session = t }))
        × (s.current_state ≡ d.session.current_state)
        × (Goes platform (submission smpp f) s t ⊎ Waits platform (submission smpp f) message s t)
  request_delivered what cfg request response f d on all may e =
      let (s, t, done, state, sent) =
        drain d.sending_buffer submit_sm (submission smpp f) d on all
          (smpp.create_command submit_sm) in
      (
        s,
        t,
        ap
              (λ q.
                passes (sending_processor platform) (suc (length d.sending_buffer))
                  (record d { sending_buffer = q }))
              (run_got smpp what cfg request d.sending_buffer response f e)
            ∙ done,
        state,
        elim sent [
          | inl (_, how) ↦ how
          | inr (denied, _) ↦
              absurd (cc (sym may ∙ ap (λ p. permitted p submit_sm) (sym state) ∙ denied))
        ],
      )
