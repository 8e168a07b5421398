-- ===== src/Session/Awaited.antt =====
-- What waits for a response was written: the entries of the map w4rQ and the PDUs that were sent.
use mathlib.Core.List.{Memᴰ}
use kiss_smpp.Common.{
  ℕ, ◌≡◌, refl, sym, subst, ◌∙◌, Option, none, some, List, [], ◌∷◌, ◌⊎◌, inl, inr, arith,
  Bool-cases, ltb, ◌<◌, ◌==◌, ==_iff,
}
use kiss_smpp.Smpp.{Smpp, Pdu, bind_receiver_resp, SharedSmppPdu}
use kiss_smpp.Config.{Config, Settings}
use kiss_smpp.Waiting.Map.{IsKeyed}
use mathlib.Core.Option.{some-injective}
use kiss_smpp.Session.Invariant.{AllRequests, Reach-IsValid}
use kiss_smpp.Session.Stable.{After, After-ok, After-and_then, if_keeps_session, Stable}
use kiss_smpp.Waiting.{pdu_seq_num, TimeStampedPdu, AwaitingResponseMap, assign, erase, find}
use kiss_smpp.Session.{Platform, Session, ok}
use kiss_smpp.Session.Write.{number_pdu, transmit, w4r_q_put}
use kiss_smpp.Session.Close.{
  construct, set_txq, connect, set_w4r_q_ageing_timer, start_session, initial,
}
use kiss_smpp.Session.Loop.{Reach}
use kiss_smpp.Session.Stable.Closing.{start_session-After}
use kiss_smpp.Session.Stable.Steps.{Reach-keeps}
use kiss_smpp.Session.Stable.Resend.{w4r_q_age_cleanup-After}
use kiss_smpp.Session.Stable.Transmit.{do_write-After, handle_write-After}

-- Every PDU of the map is in the list.
abbrev pub AllSent : List Pdu → AwaitingResponseMap → Type 0
AllSent out [] = Unit
AllSent out ((k, t) ∷ m) = Memᴰ t.obj out × AllSent out m

abbrev pub LastSent : List Pdu → Option Pdu → Type 0
LastSent out none = Unit
LastSent out (some x) = Memᴰ x out

AllSent-cons :
    (x : Pdu) (out : List Pdu) (m : AwaitingResponseMap) → AllSent out m → AllSent (x ∷ out) m
AllSent-cons x out [] h = tt
AllSent-cons x out ((k, t) ∷ m) h = (Memᴰ.tail h.0, AllSent-cons x out m h.1)

erase-AllSent :
    (k : ℕ) (out : List Pdu) (m : AwaitingResponseMap) → AllSent out m → AllSent out (erase k m)
unfolding erase
erase-AllSent k out [] h = tt
erase-AllSent k out ((j, t) ∷ m) h = ground (arith, erase-AllSent k out m h.1)

assign-AllSent :
    (k : ℕ) (t : TimeStampedPdu) (out : List Pdu) (m : AwaitingResponseMap)
    → Memᴰ t.obj out
    → AllSent out m
    → AllSent out (assign k t m)
unfolding assign
assign-AllSent k t out [] x h = (x, tt)
assign-AllSent k t out ((j, u) ∷ m) x h = ground (arith, assign-AllSent k t out m x h.1)

-- What is found in a map of PDUs that are in the list, under their numbers, and requests.
found-AllSent :
    (lib : Smpp) (k : ℕ) (e : TimeStampedPdu) (out : List Pdu) (m : AwaitingResponseMap)
    → AllSent out m
    → IsKeyed m
    → AllRequests lib m
    → find k m ≡ some e
    → Memᴰ e.obj out
      × (e.obj.sequence_number ≡ k)
      × (e.obj.command_id < lib.code bind_receiver_resp)
unfolding find pdu_seq_num
found-AllSent lib k e out [] h i r f = cc
found-AllSent lib k e out ((j, t) ∷ m) h i r f = elim (Bool-cases (j == k)) [
  | inl here ↦
      let same : t ≡ e = some-injective t e (rw here at f) in
      subst
        (λ x.
          Memᴰ x.obj out
          × (x.obj.sequence_number ≡ k)
          × (x.obj.command_id < lib.code bind_receiver_resp))
        same (h.0, i.0 ∙ (==_iff j k).0 here, r.0)
  | inr there ↦ found-AllSent lib k e out m h.1 i.1 r.1 (rw there at f)
]

module _ {Q : Type 0} (platform : Platform Q) where
  open platform use {smpp, queue}

  -- push_back_last_pop leaves the object that it is given, or none.
  abbrev pub KeepsLast : Type 0
  KeepsLast =
      (q : Q) (o : Option Pdu)
      → ((queue.push_back_last_pop q o).1 ≡ none) ⊎ ((queue.push_back_last_pop q o).1 ≡ o)

  -- What waits for a response was sent, and so was the PDU that the queue returned last.
  abbrev Awaited : Session Q → Type 0
  Awaited s = AllSent s.sent s.w4r_q × LastSent s.sent s.last_pop

  transmit-parts :
      (pdu : Pdu) (s : Session Q)
      → ((transmit platform pdu s).w4r_q ≡ s.w4r_q)
        × ((transmit platform pdu s).sent ≡ (number_pdu platform pdu s).0 ∷ s.sent)
        × ((transmit platform pdu s).last_pop ≡ some (number_pdu platform pdu s).0)
  unfolding transmit
  transmit-parts pdu s = ground arith

  transmit-Awaited : (pdu : Pdu) (s : Session Q) → Awaited s → Awaited (transmit platform pdu s)
  transmit-Awaited pdu s h =
      let (map, out, last) = transmit-parts pdu s in
      rw (map, out, last) (AllSent-cons _ s.sent s.w4r_q h.0, Memᴰ.head refl)

  put-Awaited :
      (pdu : Pdu) (s : Session Q)
      → s.last_pop ≡ some pdu
      → Awaited s
      → Awaited (w4r_q_put platform pdu s)
  unfolding w4r_q_put
  put-Awaited pdu s e h =
      let x : Memᴰ pdu s.sent = subst (LastSent s.sent) e h.1 in
      if_keeps_session Awaited (ltb pdu.command_id (smpp.code bind_receiver_resp)) _ _
        (assign-AllSent _ _ s.sent s.w4r_q x h.0, h.1) h

  LastSent-back :
      (out : List Pdu) (o o' : Option Pdu)
      → (o' ≡ none) ⊎ (o' ≡ o)
      → LastSent out o
      → LastSent out o'
  LastSent-back out o o' (inl e) h = subst (LastSent out) (sym e) tt
  LastSent-back out o o' (inr e) h = subst (LastSent out) (sym e) h

  module _ (kept : KeepsLast) where
    Stable-Awaited : Stable platform Awaited
    Stable-Awaited = record {
      flags = λ s p a b h. h;
      receives = λ s pdu h. h;
      counts = λ s n h. h;
      timers = λ s a b h. h;
      passes = λ s d h. h;
      starts = λ s t ne h. h;
      ends = λ s t rest ne taken h. h;
      numbers = λ s h. h;
      erases = λ s k h. (erase-AllSent k s.sent s.w4r_q h.0, h.1);
      shuts = λ s h. h;
      writes = do_write-After platform (λ s q h. h) transmit-Awaited;
      written = λ s e rest taken h.
          handle_write-After platform (λ s q h. h) transmit-Awaited put-Awaited
            (λ s h. (h.0, LastSent-back s.sent s.last_pop _ (kept s.tx_q s.last_pop) h.1))
            (λ s p a h. h) e _ h;
      ages = λ s n due h.
          w4r_q_age_cleanup-After platform (do_write-After platform (λ s q h. h) transmit-Awaited)
            (λ s k h. (erase-AllSent k s.sent s.w4r_q h.0, h.1)) (λ s o h. h) _ h;
    }

    construct-Awaited :
        (cfg : Settings) (c : Config) (q : Q) (rx : List SharedSmppPdu) (now : ℕ)
        → After Awaited (construct platform cfg c q rx now)
    unfolding construct set_txq connect set_w4r_q_ageing_timer start_session initial
    construct-Awaited cfg c q rx now =
        After-and_then Awaited _ _
          (start_session-After platform Awaited cfg (initial platform c q rx now) (tt, tt)
            (λ s h. h))
          (λ s h. (h.0, tt))

    -- Only what was written is waited for. In every session that is reached from a new one, an
    -- entry of the map under the number `k` is a request with that number, and one of the PDUs that
    -- were given to the socket. Of the queue it is assumed that push_back_last_pop leaves the
    -- object that it is given, or none.
    pub awaited_was_sent :
        (cfg : Settings) (c : Config) (q : Q) (rx : List SharedSmppPdu) (now : ℕ) (s t : Session Q)
        (k : ℕ) (e : TimeStampedPdu)
        → construct platform cfg c q rx now ≡ ok s
        → Reach platform s t
        → find k t.w4r_q ≡ some e
        → Memᴰ e.obj t.sent
          × (e.obj.sequence_number ≡ k)
          × (e.obj.command_id < smpp.code bind_receiver_resp)
    awaited_was_sent cfg c q rx now s t k e built r f =
        let all : Awaited t =
          Reach-keeps platform Stable-Awaited r
            (After-ok Awaited _ s built (construct-Awaited cfg c q rx now)) in
        let valid = Reach-IsValid platform cfg c q rx now s t built r in
        found-AllSent smpp k e t.sent t.w4r_q all.0 valid.keyed valid.requests f
