-- ===== src/Session/Diagram/Bound.antt =====
-- How a session comes to be bound.
use mathlib.Core.List.{Memᴰ}
use kiss_smpp.Common.{
  ◌≡◌, refl, sym, ap, subst, Bool, true, false, ◌&&◌, ◌==◌, Option, none, some, List, [], ◌∷◌, ◌⊎◌,
  inl, inr, arith, ==_iff, if◌then◌else◌,
}
use kiss_smpp.Smpp.{
  Smpp, RawPdu, CommandId, command, bind_receiver_resp, bind_transmitter_resp,
  bind_transceiver_resp, unbind, unbind_resp,
}
use kiss_smpp.Smpp.Commands.{command-some}
use kiss_smpp.Session.{State, bound_rx, bound_tx, bound_trx, success, ErrorCode, Platform, Session}
use kiss_smpp.Session.Write.{is_bound}
use kiss_smpp.Session.Binding.{bound_by}
use kiss_smpp.Session.Loop.{Event, connected, wrote, header_read, body_read, closes, Runs}
use kiss_smpp.Session.Diagram.{View, view_of, verb_of, obey, binds, may_bind, fail_read, next, run}
use kiss_smpp.Session.Diagram.Refines.{Runs-refines}

-- A bind response with the status ESME_ROK, of the kind that leads to the state `p`.
abbrev pub Grants : Smpp → State → RawPdu → Type 0
Grants smpp p raw =
    (c : CommandId) × (bound_by c ≡ some p)
    × (raw.cmd_id ≡ smpp.code c)
    × (raw.cmd_status ≡ smpp.esme_rok)

and_right : (a b : Bool) → a && b ≡ true → b ≡ true
and_right true b h = h
and_right false b h = cc

module _ (smpp : Smpp) where
  obey_binds :
      (c : CommandId) (p : State) (raw : RawPdu) (v : View)
      → bound_by c ≡ some p
      → command smpp raw.cmd_id ≡ some c
      → ((obey smpp raw (binds p) v).state ≡ v.state)
        ⊎ Grants smpp (obey smpp raw (binds p) v).state raw
  obey_binds c p raw v b e = split (may_bind v.state && raw.cmd_status == smpp.esme_rok) refl
    where
      split :
          (x : Bool)
          → may_bind v.state && raw.cmd_status == smpp.esme_rok ≡ x
          → ((if x then record v { state = p } else v).state ≡ v.state)
            ⊎ Grants smpp (if x then record v { state = p } else v).state raw
      split true h = inr (
        c,
        b,
        sym (command-some smpp raw.cmd_id c e),
        (==_iff raw.cmd_status smpp.esme_rok).0 (and_right (may_bind v.state) _ h),
      )
      split false h = inl refl

  obey_bound :
      (x : Option CommandId) (raw : RawPdu) (v : View)
      → command smpp raw.cmd_id ≡ x
      → is_bound (obey smpp raw (verb_of x) v).state ≡ true
      → ((obey smpp raw (verb_of x) v).state ≡ v.state)
        ⊎ Grants smpp (obey smpp raw (verb_of x) v).state raw
  obey_bound (some bind_receiver_resp) raw v e h =
      obey_binds bind_receiver_resp bound_rx raw v refl e
  obey_bound (some bind_transmitter_resp) raw v e h =
      obey_binds bind_transmitter_resp bound_tx raw v refl e
  obey_bound (some bind_transceiver_resp) raw v e h =
      obey_binds bind_transceiver_resp bound_trx raw v refl e
  obey_bound (some unbind) raw v e h = ground arith
  obey_bound (some unbind_resp) raw v e h = ground arith
  obey_bound (some c) raw v e h = inl refl
  obey_bound none raw v e h = inl refl

  fail_read_bound :
      (e : ErrorCode) (v : View)
      → is_bound (fail_read e v).state ≡ true
      → (fail_read e v).state ≡ v.state
  fail_read_bound e v h = ground arith

  next_bound :
      (e : Event) (v : View)
      → is_bound (next smpp e v).state ≡ true
      → ((next smpp e v).state ≡ v.state)
        ⊎ ((raw : RawPdu) × (e ≡ body_read raw success) × Grants smpp (next smpp e v).state raw)
  next_bound (connected success) v h = cc
  next_bound (wrote success) v h = inl refl
  next_bound (wrote e) v h = inl (ground arith)
  next_bound (header_read raw e) v h = inl (fail_read_bound e v h)
  next_bound (body_read raw success) v h =
      elim (obey_bound (command smpp raw.cmd_id) raw v refl h) [
        | inl same ↦ inl same
        | inr grants ↦ inr (raw, refl, grants)
      ]
  next_bound (body_read raw e) v h = inl (fail_read_bound e v h)
  next_bound closes v h = cc
  next_bound _ v h = inl refl

  -- The machine is bound only by an event that granted the very state.
  run_bound :
      (es : List Event) (v : View)
      → is_bound v.state ≡ false
      → is_bound (run smpp es v).state ≡ true
      → (raw : RawPdu) × Memᴰ (body_read raw success) es × Grants smpp (run smpp es v).state raw
  run_bound [] v no_start h = cc
  run_bound (e ∷ es) v no_start h = elim (next_bound e (run smpp es v) h) [
    | inl same ↦
        let (raw, m, g) = run_bound es v no_start (subst (λ p. is_bound p ≡ true) same h) in
        (raw, Memᴰ.tail m, subst (λ p. Grants smpp p raw) (sym same) g)
    | inr (raw, is_read, g) ↦ (raw, Memᴰ.head (sym is_read), g)
  ]

module _ {Q : Type 0} (platform : Platform Q) where
  open platform use {smpp}

  -- In a run that starts unbound and ends in a bound state, a bind response with the status
  -- ESME_ROK was read, and it was of the kind that leads to that very state.
  pub bound_needs_response :
      {s t : Session Q} {es : List Event}
      → Runs platform s es t
      → is_bound s.current_state ≡ false
      → is_bound t.current_state ≡ true
      → (raw : RawPdu) × Memᴰ (body_read raw success) es × Grants smpp t.current_state raw
  bound_needs_response {s} {t} {es} r from to =
      let same = ap (λ v. v.state) (Runs-refines platform r) in
      let (raw, m, g) =
        run_bound smpp es (view_of s) from (subst (λ p. is_bound p ≡ true) same to) in
      (raw, m, subst (λ p. Grants smpp p raw) (sym same) g)
