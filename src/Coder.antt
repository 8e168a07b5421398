-- ===== src/Coder.antt =====
-- SmppPduBase64Bicoder of ksmppc/src/smpppdu_queue.hpp: how the persisted queues write PDUs and
-- read them back. The encoding of a PDU to bytes and base64 are the libraries'.
pub mod Stored
pub mod Dump
use kiss_smpp.Common.{ℕ, ◌≡◌, Option, none, some, List}
use kiss_smpp.Smpp.{
  Smpp, Pdu, SharedSmppPdu, CommandId, Decoded, decoded, throws, Exception, command,
}

-- What smpp_pdu and kisscpp do: `pdu_of c` is the constructor from bytes of the class of `c`;
-- a std::string is the list of its bytes.
pub record Coder : Type 0 where
  pub encode_pdu : Pdu → List ℕ
  pub get_command_id : List ℕ → ℕ
  pub pdu_of : CommandId → List ℕ → Decoded
  pub encode_to_base64 : List ℕ → List ℕ
  pub decode_from_base64 : List ℕ → List ℕ
  pub decode_encode_base64 : (bs : List ℕ) → decode_from_base64 (encode_to_base64 bs) ≡ bs
  pub get_command_id_encode : (pdu : Pdu) → get_command_id (encode_pdu pdu) ≡ pdu.command_id

-- The shared pointer that `decode` returns, or the exception that it passes on.
pub data Restored : Type 0 where
  returned : SharedSmppPdu → Restored
  passes_on : Exception → Restored

module _ (smpp : Smpp) (coder : Coder) where
  open coder use {encode_pdu, get_command_id, pdu_of, encode_to_base64, decode_from_base64}

  -- SmppPduBase64Bicoder::encode
  unfoldable pub encode : Pdu → List ℕ
  encode pdu = encode_to_base64 (encode_pdu pdu)

  -- The `switch` of `decode`, whose default leaves the pointer as it was made
  unfoldable pub decode_as : Option CommandId → List ℕ → Restored
  decode_as none bs = returned none
  decode_as (some c) bs = of_constructor (pdu_of c bs)
    where
      of_constructor : Decoded → Restored
      of_constructor (decoded pdu) = returned (some pdu)
      of_constructor (throws e) = passes_on e

  -- SmppPduBase64Bicoder::decode
  unfoldable pub decode : List ℕ → Restored
  decode str = let bs = decode_from_base64 str in decode_as (command smpp (get_command_id bs)) bs
