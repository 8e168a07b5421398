-- ===== src/Session/Awaiting.antt =====
-- Which PDUs the map w4rQ waits for, and which responses it takes them out for.
use kiss_smpp.Common.{
  ℕ, ◌<◌, ◌≡◌, refl, ◌∙◌, true, false, none, ◌==◌, if◌then◌else◌, arith, Bool-cases, inl, inr,
}
use kiss_smpp.Smpp.{CommandId, Pdu, RawPdu, is_response, bind_receiver_resp}
use kiss_smpp.Waiting.{find, assign}
use kiss_smpp.Waiting.Map.{IsSorted, find-assign, find-erase, assign-IsSorted}
use kiss_smpp.Session.{Platform, Session}
use kiss_smpp.Session.Write.{w4r_q_put, seconds}
use kiss_smpp.Session.Handlers.{w4r_q_pop}

module _ {Q : Type 0} (platform : Platform Q) where
  open platform use {smpp}

  pub is_request :
      (c : CommandId) → is_response c ≡ false → smpp.code c < smpp.code bind_receiver_resp
  unfolding is_response
  is_request c h =
      omega (arith, smpp.code_le_nack c h, smpp.nack_lt_response bind_receiver_resp refl)

  -- Exactly the PDUs that are no response are entered, under their number and with the time.
  pub w4r_q_put_lem :
      (c : CommandId) (pdu : Pdu) (s : Session Q)
      → pdu.command_id ≡ smpp.code c
      → w4r_q_put platform pdu s ≡ (
          if is_response c then s else record s {
            w4r_q =
                assign pdu.sequence_number (record { obj = pdu; timestamp = seconds s }) s.w4r_q;
          })
  unfolding w4r_q_put
  w4r_q_put_lem c pdu s e = elim (Bool-cases (is_response c)) [
    | inl response ↦ rw response (ground (arith, smpp.bind_receiver_resp_first c response))
    | inr request ↦ rw request (ground (arith, is_request c request))
  ]

  -- A response takes the entry of its number out of the map, and leaves the others; every other
  -- PDU, generic_nack among them, leaves the map as it is.
  pub w4r_q_pop_lem :
      (c : CommandId) (raw : RawPdu) (s : Session Q) (k : ℕ)
      → raw.cmd_id ≡ smpp.code c
      → IsSorted s.w4r_q
      → find k (w4r_q_pop platform raw s).w4r_q ≡ (
          if is_response c
          then (if raw.seq_num == k then none else find k s.w4r_q)
          else find k s.w4r_q)
  unfolding w4r_q_pop
  w4r_q_pop_lem c raw s k e sorted = elim (Bool-cases (is_response c)) [
    | inl response ↦
        rw response (
          ground (arith, smpp.nack_lt_response c response, find-erase raw.seq_num k s.w4r_q sorted))
    | inr request ↦ rw request (ground (arith, smpp.code_le_nack c request))
  ]

  -- A PDU that was entered and whose response then comes in is no longer in the map, and the look-
  -- up of every other number is what it was.
  pub pop-put :
      (c d : CommandId) (pdu : Pdu) (raw : RawPdu) (s : Session Q) (k : ℕ)
      → pdu.command_id ≡ smpp.code c
      → is_response c ≡ false
      → raw.cmd_id ≡ smpp.code d
      → is_response d ≡ true
      → raw.seq_num ≡ pdu.sequence_number
      → IsSorted s.w4r_q
      → find k (w4r_q_pop platform raw (w4r_q_put platform pdu s)).w4r_q
        ≡ (if pdu.sequence_number == k then none else find k s.w4r_q)
  pop-put c d pdu raw s k e request f response n sorted =
      rw (w4r_q_put_lem c pdu s e, request)
        (w4r_q_pop_lem d raw entered k f (
            assign-IsSorted pdu.sequence_number (record { obj = pdu; timestamp = seconds s })
              s.w4r_q sorted)
          ∙ ground (
            arith,
            find-assign pdu.sequence_number k (record { obj = pdu; timestamp = seconds s }) s.w4r_q,
          ))
    where
      entered : Session Q
      entered = record s {
        w4r_q = assign pdu.sequence_number (record { obj = pdu; timestamp = seconds s }) s.w4r_q;
      }
