-- ===== src/Session/Tasks.antt =====
-- How many writes are under way among the tasks of a session.
use kiss_smpp.Common.{ℕ, ◌+◌, ◌≡◌, ◌≢◌, refl, List, [], ◌∷◌, arith}
use kiss_smpp.Session.{Task, writing}
use kiss_smpp.Session.Loop.{Takes, here, there}

abbrev pub weight : Task → ℕ
weight writing = 1
weight _ = 0

abbrev pub in_flight : List Task → ℕ
in_flight [] = 0
in_flight (t ∷ ts) = weight t + in_flight ts

pub Takes-in_flight :
    (t : Task) {ts us : List Task} → Takes t ts us → in_flight ts ≡ weight t + in_flight us
Takes-in_flight t here = refl
Takes-in_flight t (there {u} m) = omega (arith, Takes-in_flight t m)

pub weight_of_ne : (t : Task) → t ≢ writing → weight t ≡ 0
weight_of_ne writing h = absurd (h refl)
weight_of_ne _ h = refl
