-- ===== src/Waiting.antt =====
-- timeStampedPdu and the map `w4rQ` of ksmppc/src/session_manager.hpp: a std::map from sequence
-- numbers to sent PDUs, as a list in the order of its keys.
use kiss_smpp.Common.{
  ℕ, ◌-◌, ltb, leb, ◌==◌, if◌then◌else◌, Bool, true, false, Option, none, some, List, [], ◌∷◌,
}
use kiss_smpp.Smpp.{Pdu}
pub mod Map

pub record TimeStampedPdu : Type 0 where
  pub obj : Pdu
  pub timestamp : ℕ

-- The constructor, at a time in seconds
abbrev pub time_stamped_pdu : Pdu → ℕ → TimeStampedPdu
time_stamped_pdu o now = record { obj = o; timestamp = now }

-- `pduSeqNum`
unfoldable pub pdu_seq_num : TimeStampedPdu → ℕ
pdu_seq_num t = t.obj.sequence_number

-- `expired`, at a time. The difference is signed in the source; the ages asked for are positive.
unfoldable pub expired : ℕ → TimeStampedPdu → ℕ → Bool
expired now t seconds = leb seconds (now - t.timestamp)

abbrev pub AwaitingResponseMap : Type 0
AwaitingResponseMap = List (ℕ × TimeStampedPdu)

unfoldable pub find : ℕ → AwaitingResponseMap → Option TimeStampedPdu
find k [] = none
find k ((j, t) ∷ m) = if j == k then some t else find k m

-- `w4rQ[k] = t`
unfoldable pub assign : ℕ → TimeStampedPdu → AwaitingResponseMap → AwaitingResponseMap
assign k t [] = (k, t) ∷ []
assign k t ((j, u) ∷ m) =
    if k == j then (k, t) ∷ m else if ltb k j then (k, t) ∷ (j, u) ∷ m else (j, u) ∷ assign k t m

unfoldable pub erase : ℕ → AwaitingResponseMap → AwaitingResponseMap
erase k [] = []
erase k ((j, t) ∷ m) = if j == k then m else (j, t) ∷ erase k m
