-- ===== src/Session/Races/Levels.antt =====
-- Levels of a queue that are cleared, with an object that is pushed before or after.
use kiss_smpp.Common.{
  ◌≡◌, refl, ap, ◌∙◌, ◌⊎◌, inl, inr, true, false, none, some, List, [], ◌∷◌, ◌++◌, arith,
}
use kiss_smpp.Smpp.{Pdu}
use kiss_smpp.TransmitQueue.{
  Priority, session, response, message, Items, no_items, push_items, pop_items, clear_items,
}
use kiss_smpp.Session.Races.{is_cleared, is_same}

abbrev pub clear_all : List Priority → Items → Items
clear_all [] i = i
clear_all (p ∷ ps) i = clear_all ps (clear_items i p)

clear_all-empty :
    (ps : List Priority) (i : Items) → no_items i ≡ true → no_items (clear_all ps i) ≡ true
clear_all-empty [] i h = h
clear_all-empty (session ∷ ps) i h = clear_all-empty ps (clear_items i session) (ground arith)
clear_all-empty (response ∷ ps) i h = clear_all-empty ps (clear_items i response) (ground arith)
clear_all-empty (message ∷ ps) i h = clear_all-empty ps (clear_items i message) (ground arith)

pub clear_all-append :
    (ps qs : List Priority) (i : Items) → clear_all (ps ++ qs) i ≡ clear_all qs (clear_all ps i)
clear_all-append [] qs i = refl
clear_all-append (p ∷ ps) qs i = clear_all-append ps qs (clear_items i p)

-- A message stays where it is when the other levels are cleared.
pub clear_all-push :
    (ps : List Priority) (i : Items) (x : Pdu)
    → is_cleared message ps ≡ false
    → clear_all ps (push_items i x message) ≡ push_items (clear_all ps i) x message
clear_all-push [] i x h = refl
clear_all-push (session ∷ ps) i x h = clear_all-push ps (clear_items i session) x h
clear_all-push (response ∷ ps) i x h = clear_all-push ps (clear_items i response) x h
clear_all-push (message ∷ ps) i x h = cc

abbrev pub no_item : Items
no_item = record { sessions = []; responses = []; messages = [] }

pub no_items-eq : (i : Items) → no_items i ≡ true → i ≡ no_item
no_items-eq i h = ground arith

pub clear_all-no_item : (ps : List Priority) → clear_all ps no_item ≡ no_item
clear_all-no_item ps = no_items-eq _ (clear_all-empty ps no_item refl)

-- One level is cleared where only the level `p` has an object.
clear-only :
    (p r : Priority) (x : Pdu)
    → ((is_same p r ≡ true) × (clear_items (push_items no_item x p) r ≡ no_item))
      ⊎ ((is_same p r ≡ false) × (clear_items (push_items no_item x p) r ≡ push_items no_item x p))
clear-only session session x = inl (refl, refl)
clear-only session response x = inr (refl, refl)
clear-only session message x = inr (refl, refl)
clear-only response session x = inr (refl, refl)
clear-only response response x = inl (refl, refl)
clear-only response message x = inr (refl, refl)
clear-only message session x = inr (refl, refl)
clear-only message response x = inr (refl, refl)
clear-only message message x = inl (refl, refl)

-- An object that is alone is gone if its level is cleared, and stays otherwise.
pub clear_all-only :
    (ps : List Priority) (p : Priority) (x : Pdu)
    → ((is_cleared p ps ≡ true) × (clear_all ps (push_items no_item x p) ≡ no_item))
      ⊎ ((is_cleared p ps ≡ false)
          × (clear_all ps (push_items no_item x p) ≡ push_items no_item x p))
clear_all-only [] p x = inr (refl, refl)
clear_all-only (r ∷ ps) p x = elim (clear-only p r x) [
  | inl (same, gone) ↦ inl (rw same refl, ap (clear_all ps) gone ∙ clear_all-no_item ps)
  | inr (other, stays) ↦ elim (clear_all-only ps p x) [
    | inl (later, gone) ↦ inl (rw (other, later) refl, ap (clear_all ps) stays ∙ gone)
    | inr (never, left) ↦ inr (rw (other, never) refl, ap (clear_all ps) stays ∙ left)
  ]
]

pub pop-only :
    (x : Pdu) (p : Priority)
    → ((pop_items (push_items no_item x p)).0 ≡ some x)
      × ((pop_items (push_items no_item x p)).1 ≡ no_item)
unfolding pop_items
pop-only x session = (refl, refl)
pop-only x response = (refl, refl)
pop-only x message = (refl, refl)

pub pop-no_item : (pop_items no_item).0 ≡ none
unfolding pop_items
pop-no_item = refl
