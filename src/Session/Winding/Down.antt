-- ===== src/Session/Winding/Down.antt =====
-- The operations that are left when a session is stopped end, one after another.
use kiss_smpp.Common.{◌+◌, ◌≡◌, refl, sym, subst, true, List, [], ◌∷◌, length}
use kiss_smpp.Smpp.{RawPdu}
use kiss_smpp.Session.{
  other_error, Task, connecting, reading_header, reading_body, writing, closing, Platform, Session,
  ok,
}
use kiss_smpp.Session.Write.{handle_write, write_failed}
use kiss_smpp.Session.Close.{close_connection}
use kiss_smpp.Session.Handlers.{handle_read_header, handle_read_body}
use kiss_smpp.Session.Loop.{
  Event, connected, wrote, header_read, body_read, closes, Takes, Ends, Ready, react, Runs, idle,
  after,
}
use kiss_smpp.Session.Winding.{
  IsEnd, AllEnds, IsWinding, close_connection-IsWinding, react-Winds, Ready-Winds, Winds-ok,
  Runs-Winds, read_failed-idle, handle_connect-idle,
}

-- No header at all.
abbrev no_pdu : RawPdu
no_pdu = record { cmd_length = 0; cmd_id = 0; cmd_status = 0; seq_num = 0; bytes = [] }

module _ {Q : Type 0} (platform : Platform Q) where
  -- How an operation ends once the socket is closed.
  abbrev end_of : Task → Event
  end_of connecting = connected other_error
  end_of reading_header = header_read no_pdu other_error
  end_of (reading_body raw) = body_read raw other_error
  end_of writing = wrote other_error
  end_of closing = closes

  end_of-IsEnd : (t : Task) → IsEnd (end_of t)
  end_of-IsEnd connecting = λ e. cc
  end_of-IsEnd reading_header = λ e. cc
  end_of-IsEnd (reading_body raw) = λ e. cc
  end_of-IsEnd writing = tt
  end_of-IsEnd closing = tt

  end_of-Ready :
      (t : Task) (s : Session Q) (rest : List Task)
      → s.tasks ≡ t ∷ rest
      → Ready (end_of t) s (record s { tasks = rest })
  end_of-Ready t s rest e = ready t (rest, subst (λ ts. Takes t ts rest) (sym e) Takes.here, refl)
    where
      ready :
          (t : Task)
          → Ends t s (record s { tasks = rest })
          → Ready (end_of t) s (record s { tasks = rest })
      ready connecting h = h
      ready reading_header h = h
      ready (reading_body raw) h = (raw, h, refl)
      ready writing h = h
      ready closing h = h

  -- The end of the first task, without undefined behaviour.
  end_of-runs :
      (t : Task) (s : Session Q)
      → IsWinding s
      → (u : Session Q) × (react platform (end_of t) s ≡ ok u)
  unfolding react handle_write handle_read_header handle_read_body
  end_of-runs connecting s w = (s, handle_connect-idle platform other_error s w (λ e. cc))
  end_of-runs reading_header s w = (s, read_failed-idle platform other_error s w)
  end_of-runs (reading_body raw) s w = (s, read_failed-idle platform other_error s w)
  end_of-runs writing s w = (write_failed platform s, refl)
  end_of-runs closing s w = (close_connection platform s, refl)

  -- The operations that are left end one by one.
  exhaust :
      (ts : List Task) (s t : Session Q) (es : List Event)
      → t.tasks ≡ ts
      → IsWinding t
      → Runs platform s es t
      → AllEnds es
      → (es' : List Event) × (u : Session Q) × Runs platform s es' u × AllEnds es' × (u.tasks ≡ [])
  exhaust [] s t es e w r ends = (es, t, r, ends, e)
  exhaust (x ∷ ts) s t es e w r ends =
      let ready = end_of-Ready x t ts e in
      let (w', n) =
        Ready-Winds platform (end_of x) t (record t { tasks = ts }) (end_of-IsEnd x) ready w in
      let (u, runs) = end_of-runs x (record t { tasks = ts }) w' in
      let (w3, same) =
        Winds-ok platform ts _ u runs (react-Winds platform (end_of x) _ (end_of-IsEnd x) w') in
      exhaust ts s u (end_of x ∷ es) same w3
        (after (end_of x) (record t { tasks = ts }) r ready runs) (end_of-IsEnd x, ends)

  -- Once close_connection has run in a session that is being stopped, the io_service runs out of
  -- work: in every run of ended operations each event takes one task away and none is added, and
  -- from wherever such a run has got to, ended operations lead on to a session with nothing left to
  -- do.
  pub stop_winds_down :
      (s t : Session Q) (es : List Event)
      → s.stop_flag ≡ true
      → Runs platform (close_connection platform s) es t
      → AllEnds es
      → (length es + length t.tasks ≡ length (close_connection platform s).tasks)
        × ((es' : List Event) × (u : Session Q) × Runs platform t es' u
            × AllEnds es'
            × (u.tasks ≡ []))
  stop_winds_down s t es h r ends =
      let (w, n) = Runs-Winds platform r ends (close_connection-IsWinding platform s h) in
      (n, exhaust t.tasks t t [] refl w idle tt)
