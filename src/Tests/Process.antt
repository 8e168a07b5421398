-- ===== src/Tests/Process.antt =====
-- The send handler, the coder and the buffers of a RawPdu at concrete inputs.
use kiss_smpp.Coder.Dump.Layout.{ppdustr-layout, layout, take}
use kiss_smpp.Coder.Dump.{ppdustr, hex}
use kiss_smpp.Common.{
  ℕ, zero, suc, if◌then◌else◌, ◌≡◌, refl, none, some, List, [], ◌∷◌, ◌++◌, length, ◌⊎◌, arith, ◌<◌,
  ◌↔◌, ◌≢◌, ◌≤◌,
}
use kiss_smpp.Smpp.{
  Pdu, MessageFields, message_body, submit_sm, CommandId, Decoded, enquire_link, decoded, opaque,
  throws, runtime_error,
}
use kiss_smpp.Smpp.Standard.{standard, standard_create}
use kiss_smpp.Config.{Settings}
use kiss_smpp.Coder.{Coder, encode, decode, returned}
use kiss_smpp.Coder.Stored.{decode-encode}
use kiss_smpp.SendHandler.{Request, Response, rqst_success, run}
use kiss_smpp.SendHandler.Runs.{LacksKey, run_lem}
use kiss_smpp.Buffers.{Heap, RawBuffer, Memory, cmd_length, read_header, read_body, body_buf}
use kiss_smpp.Buffers.Life.{Holds, Releases, read-Holds, body_buf-none}
use kiss_smpp.Tests.Fixture.{parsed}
use Prim.Native.String.{String}
use text.Mathlib.Text.{◌==◌ as str_eq}

-- Memory that happens to hold zeros; the first octet stands for the whole length.
abbrev zeros : ℕ → List ℕ
zeros zero = []
zeros (suc n) = 0 ∷ zeros n

length-zeros : (n : ℕ) → length (zeros n) ≡ n
length-zeros zero = refl
length-zeros (suc n) = let h = length-zeros n in omega arith

abbrev first_octet : List ℕ → ℕ
first_octet [] = 0
first_octet (x ∷ xs) = x

first_octet_header : (h m : List ℕ) → length h ≡ 16 → first_octet (h ++ m) ≡ first_octet h
first_octet_header [] m e = absurd (omega arith)
first_octet_header (x ∷ h) m e = refl

abbrev memory : Memory
memory = record {
  fresh = zeros;
  get_command_length = first_octet;
  length_fresh = length-zeros;
  command_length_header = first_octet_header;
}

abbrev empty_heap : Heap
empty_heap = record { blocks = []; next = 1 }

abbrev header : List ℕ
header = 18 ∷ zeros 15

read-Holds_example :
    (p : RawBuffer) × (heap1 : Heap) × (read_header memory header empty_heap ≡ some (p, heap1))
    × Releases memory p heap1 empty_heap
    × ((q : RawBuffer) × (heap2 : Heap) × (read_body memory (8 ∷ 9 ∷ []) p heap1 ≡ some (q, heap2))
        × Holds memory q (header ++ 8 ∷ 9 ∷ []) empty_heap heap2
        × (cmd_length memory q heap2 ≡ some 18)
        × Releases memory q heap2 empty_heap)
read-Holds_example = read-Holds memory header (8 ∷ 9 ∷ []) empty_heap refl refl

body_buf-none_example :
    (p : RawBuffer) × (heap1 : Heap) × (read_header memory (12 ∷ zeros 15) empty_heap
      ≡ some (p, heap1))
    × ((body_buf memory p heap1 ≡ none) ↔ (12 < 16))
body_buf-none_example = body_buf-none memory (12 ∷ zeros 15) empty_heap refl

abbrev settings : Settings
settings = record {
  get_string = λ key. none;
  get_unsigned = λ key. none;
  get_uint8 = λ key. some 1;
  get_int_or = λ key n. n;
}

-- A request with two addresses and no text.
abbrev untexted : Request
untexted = record {
  get_string_or = λ key s. s;
  get_uint8_or = λ key n. n;
  get_string = λ key. if str_eq key "short-message" then none else some "27831234567";
}

abbrev no_response : Response
no_response = record { kcm_sts = none; kcm_erm = none }

run_lem_example :
    let (q', response') = run standard (λ key. key) settings untexted [] no_response in
    (response'.kcm_sts ≡ some rqst_success)
    × (((f : MessageFields) × (q'
            ≡ [] ++ some (record (standard_create submit_sm) { body = message_body f }) ∷ [])
          × (response'.kcm_erm ≡ none)
          × (untexted.get_string "source-addr" ≡ some f.source_address)
          × (untexted.get_string "destination-addr" ≡ some f.destination_address)
          × (untexted.get_string "short-message" ≡ some f.short_message))
        ⊎ ((key : String) × (q' ≡ [])
            × (response'.kcm_erm ≡ some key)
            × LacksKey settings untexted key))
run_lem_example = run_lem standard (λ key. key) settings untexted [] no_response

-- A coder of PDUs that are a header only: their three numbers.
abbrev header_fields : Pdu → List ℕ
header_fields pdu = pdu.command_id ∷ pdu.command_status ∷ pdu.sequence_number ∷ []

abbrev of_header_fields : CommandId → List ℕ → Decoded
of_header_fields c (i ∷ status ∷ n ∷ []) =
    decoded (record { command_id = i; command_status = status; sequence_number = n; body = opaque })
of_header_fields c _ = throws runtime_error

abbrev pub header_coder : Coder
header_coder = record {
  encode_pdu = header_fields;
  get_command_id = first_octet;
  pdu_of = of_header_fields;
  encode_to_base64 = λ bs. bs;
  decode_from_base64 = λ bs. bs;
  decode_encode_base64 = λ bs. refl;
  get_command_id_encode = λ pdu. refl;
}

decode-encode_example :
    ((c : CommandId) × (standard.code enquire_link ≡ standard.code c)
      × (decode standard header_coder (encode standard header_coder (parsed enquire_link 7))
          ≡ returned (some (parsed enquire_link 7))))
    ⊎ ((c : CommandId) → standard.code enquire_link ≢ standard.code c)
      × (decode standard header_coder (encode standard header_coder (parsed enquire_link 7))
          ≡ returned none)
decode-encode_example = decode-encode standard header_coder (parsed enquire_link 7) (λ c e. refl)

-- Twenty octets.
abbrev twenty : List ℕ
twenty =
    0 ∷ 15 ∷ 16 ∷ 255 ∷ 1 ∷ 2 ∷ 3 ∷ 4 ∷ 5 ∷ 6 ∷ 7 ∷ 8 ∷ 9 ∷ 10 ∷ 11 ∷ 12 ∷ 13 ∷ 14 ∷ 127 ∷ 128 ∷ []

ppdustr-layout_example :
    ((18 ≤ 20) × (ppdustr twenty 18 ≡ some (hex ∷ layout 0 (take 18 twenty))))
    ⊎ ((20 < 18) × (ppdustr twenty 18 ≡ none))
ppdustr-layout_example = ppdustr-layout twenty 18
