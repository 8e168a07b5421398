-- ===== src/Coder/Stored.antt =====
-- What is read back of a PDU that was stored.
use kiss_smpp.Common.{◌≡◌, ◌≢◌, refl, sym, ap, ◌∙◌, none, some, ◌⊎◌, inl, inr, Option-cases}
use kiss_smpp.Smpp.{Smpp, Pdu, CommandId, command, decoded}
use kiss_smpp.Smpp.Commands.{command_of_eq, command-some}
use kiss_smpp.Coder.{Coder, returned, encode, decode, decode_as}

module _ (smpp : Smpp) (coder : Coder) where
  open coder use {pdu_of, encode_pdu}

  decode_stored :
      (pdu : Pdu)
      → decode smpp coder (encode smpp coder pdu)
        ≡ decode_as smpp coder (command smpp pdu.command_id) (encode_pdu pdu)
  unfolding decode encode
  decode_stored pdu =
      rw (coder.decode_encode_base64 (encode_pdu pdu)) (rw (coder.get_command_id_encode pdu) refl)

  default_label : (pdu : Pdu) → decode_as smpp coder none (encode_pdu pdu) ≡ returned none
  unfolding decode_as
  default_label pdu = refl

  label :
      (c : CommandId) (pdu : Pdu)
      → pdu_of c (encode_pdu pdu) ≡ decoded pdu
      → decode_as smpp coder (some c) (encode_pdu pdu) ≡ returned (some pdu)
  unfolding decode_as
  label c pdu e = rw e refl

  -- A PDU is read back from the storage as it was written, if its identifier is one of the
  -- protocol's and the constructor of its class reads what the PDU encodes to. A PDU of any other
  -- identifier is read back as a null pointer.
  pub decode-encode :
      (pdu : Pdu)
      → ((c : CommandId) → pdu.command_id ≡ smpp.code c → pdu_of c (encode_pdu pdu) ≡ decoded pdu)
      → ((c : CommandId) × (pdu.command_id ≡ smpp.code c)
          × (decode smpp coder (encode smpp coder pdu) ≡ returned (some pdu)))
        ⊎ ((c : CommandId) → pdu.command_id ≢ smpp.code c)
          × (decode smpp coder (encode smpp coder pdu) ≡ returned none)
  decode-encode pdu reads = elim (Option-cases (command smpp pdu.command_id)) [
    | inl e ↦ inr (
      λ c f. let g = command_of_eq smpp c pdu.command_id f in cc,
      decode_stored pdu ∙ ap (λ o. decode_as smpp coder o (encode_pdu pdu)) e ∙ default_label pdu,
    )
    | inr (c, e) ↦
        let f = sym (command-some smpp pdu.command_id c e) in
        inl (
          c,
          f,
          decode_stored pdu
              ∙ ap (λ o. decode_as smpp coder o (encode_pdu pdu)) e
              ∙ label c pdu (reads c f),
        )
  ]
