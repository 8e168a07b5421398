-- ===== src/SendHandler/Runs.antt =====
-- What the send handler does with a request.
use kiss_smpp.Common.{◌≡◌, refl, none, some, List, [], ◌∷◌, ◌++◌, Option-cases, ◌⊎◌, inl, inr}
use kiss_smpp.Smpp.{Smpp, message_body, submit_sm, MessageFields}
use kiss_smpp.Config.{Settings}
use kiss_smpp.SendHandler.{
  got, failed, Request, Response, rqst_success, submit_sm_of, run, push_or_report, submit_fields,
  SharedSmppPdu,
}
use Prim.Native.String.{String}

-- Some lookup that has no default of its own throws.
abbrev pub LacksKey : Settings → Request → String → Type 0
LacksKey cfg request key =
    (cfg.get_uint8 key ≡ none)
      × ((key ≡ "smpp-session.default-type-of-number")
          ⊎ (key ≡ "smpp-session.default-number-plan-indicator"))
    ⊎ (request.get_string key ≡ none)
      × ((key ≡ "source-addr") ⊎ (key ≡ "destination-addr") ⊎ (key ≡ "short-message"))

-- The fields that are read, or the first lookup that throws.
fields_cases :
    (cfg : Settings) (request : Request)
    → ((f : MessageFields) × (submit_fields cfg request ≡ got f)
        × (request.get_string "source-addr" ≡ some f.source_address)
        × (request.get_string "destination-addr" ≡ some f.destination_address)
        × (request.get_string "short-message" ≡ some f.short_message))
      ⊎ ((key : String) × (submit_fields cfg request ≡ failed key) × LacksKey cfg request key)
unfolding submit_fields
fields_cases cfg request =
    elim (Option-cases (cfg.get_uint8 "smpp-session.default-type-of-number")) [
      | inl e ↦ inr (_, rw e refl, inl (e, inl refl))
      | inr (ton, e1) ↦
          elim (Option-cases (cfg.get_uint8 "smpp-session.default-number-plan-indicator")) [
            | inl e ↦ inr (_, rw e1 (rw e refl), inl (e, inr refl))
            | inr (npi, e2) ↦ elim (Option-cases (request.get_string "source-addr")) [
              | inl e ↦ inr (_, rw e1 (rw e2 (rw e refl)), inr (e, inl refl))
              | inr (source, e3) ↦ elim (Option-cases (request.get_string "destination-addr")) [
                | inl e ↦ inr (_, rw e1 (rw e2 (rw e3 (rw e refl))), inr (e, inr (inl refl)))
                | inr (destination, e4) ↦ elim (Option-cases (request.get_string "short-message")) [
                  | inl e ↦
                      inr (_, rw e1 (rw e2 (rw e3 (rw e4 (rw e refl)))), inr (e, inr (inr refl)))
                  | inr (message, e5) ↦ inl (
                    submit_sm_of request ton npi source destination message,
                    rw e1 (rw e2 (rw e3 (rw e4 (rw e5 refl)))),
                    e3,
                    e4,
                    e5,
                  )
                ]
              ]
            ]
          ]
    ]

-- A request is answered by RQST_SUCCESS in every case. Either one submit_sm with its addresses and
-- its text enters the queue at the end, or a lookup that has no default threw: then the queue stays
-- as it is, and the response has the text of the exception.
pub run_lem :
    (smpp : Smpp) (what : String → String) (cfg : Settings) (request : Request)
    (q : List SharedSmppPdu) (response : Response)
    → let (q', response') = run smpp what cfg request q response in
      (response'.kcm_sts ≡ some rqst_success)
      × (((f : MessageFields) × (q'
              ≡ q ++ some (record (smpp.create submit_sm) { body = message_body f }) ∷ [])
            × (response'.kcm_erm ≡ response.kcm_erm)
            × (request.get_string "source-addr" ≡ some f.source_address)
            × (request.get_string "destination-addr" ≡ some f.destination_address)
            × (request.get_string "short-message" ≡ some f.short_message))
          ⊎ ((key : String) × (q' ≡ q)
              × (response'.kcm_erm ≡ some (what key))
              × LacksKey cfg request key))
unfolding run push_or_report
run_lem smpp what cfg request q response = (
  refl,
  elim (fields_cases cfg request) [
    | inl (f, e, from, to, text) ↦ inl (f, rw e refl, rw e refl, from, to, text)
    | inr (key, e, lacks) ↦ inr (key, rw e refl, rw e refl, lacks)
  ],
)
