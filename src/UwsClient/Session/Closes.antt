-- ===== src/UwsClient/Session/Closes.antt =====
-- uws_client_close_async of src/uws_client.c, to the end of the close and the next open.
use azure_c_shared_utility.Base.{
  ◌+◌, ◌≡◌, ◌∙◌, ap, refl, Bool, true, false, none, some, ℕ, Option, arith, List, [], ◌∷◌, ◌++◌,
  if◌then◌else◌,
}
use azure_c_shared_utility.Buffer.{success, failure}
use azure_c_shared_utility.UwsClient.{
  UwsState, uws_closed, uws_opening_underlying_io, uws_waiting_for_upgrade_response, uws_open,
  uws_closing_waiting_for_close, uws_closing_sending_close, uws_closing_underlying_io, uws_error,
  error_indicated, cannot_close_underlying_io, indicate_ws_error, io_closes, close_completed, World,
  indicate_ws_close_complete,
}
use azure_c_shared_utility.UwsClient.Session.{
  refused, PendingSend, frame_completion, send_frame_completed, send_frame_cancelled, Session,
  SessionEvent, indicated, Reply, clear_pending_sends, deliver, replies,
}
use azure_c_shared_utility.UwsClient.Session.Calls.{
  open_async, start_opening, start_closing, close_async, io_close_complete,
  on_underlying_io_close_complete, on_underlying_io, opens, closes, io_calls, step,
}

abbrev pub is_closed : UwsState → Bool
is_closed uws_closed = true
is_closed _ = false

close_async-start :
    (w : World) (s : Session) (state : UwsState) (on_close : Bool)
    → is_closed state ≡ false
    → close_async w s state on_close ≡ start_closing w s on_close
unfolding close_async
close_async-start w s uws_closed on_close other = absurd (ground arith)
close_async-start w s uws_opening_underlying_io on_close other = refl
close_async-start w s uws_waiting_for_upgrade_response on_close other = refl
close_async-start w s uws_open on_close other = refl
close_async-start w s uws_closing_waiting_for_close on_close other = refl
close_async-start w s uws_closing_sending_close on_close other = refl
close_async-start w s uws_closing_underlying_io on_close other = refl
close_async-start w s uws_error on_close other = refl

close_async-refused :
    (w : World) (s : Session) (state : UwsState) (on_close : Bool)
    → is_closed state ≡ true
    → close_async w s state on_close ≡ record { status = failure; session = s; events = [] }
unfolding close_async refused
close_async-refused w s uws_closed on_close closed = refl
close_async-refused w s uws_opening_underlying_io on_close closed = absurd (ground arith)
close_async-refused w s uws_waiting_for_upgrade_response on_close closed = absurd (ground arith)
close_async-refused w s uws_open on_close closed = absurd (ground arith)
close_async-refused w s uws_closing_waiting_for_close on_close closed = absurd (ground arith)
close_async-refused w s uws_closing_sending_close on_close closed = absurd (ground arith)
close_async-refused w s uws_closing_underlying_io on_close closed = absurd (ground arith)
close_async-refused w s uws_error on_close closed = absurd (ground arith)

-- The contexts of the sends that gave a callback, in order.
abbrev pub before_contexts : Option ℕ → List ℕ → List ℕ
before_contexts none contexts = contexts
before_contexts (some context) contexts = context ∷ contexts

abbrev pub contexts : List PendingSend → List ℕ
contexts [] = []
contexts (p ∷ ps) = before_contexts p.callback (contexts ps)

abbrev pub cancelled : List ℕ → List SessionEvent
cancelled [] = []
cancelled (context ∷ cs) = send_frame_completed context send_frame_cancelled ∷ cancelled cs

frame_completion-cancelled :
    (callback : Option ℕ) (events : List SessionEvent) (cs : List ℕ)
    → events ≡ cancelled cs
    → frame_completion callback send_frame_cancelled ++ events
      ≡ cancelled (before_contexts callback cs)
unfolding frame_completion
frame_completion-cancelled none events cs e = e
frame_completion-cancelled (some context) events cs e =
    ap (λ es. send_frame_completed context send_frame_cancelled ∷ es) e

clear_pending_sends-cancelled :
    (ps : List PendingSend) → clear_pending_sends ps ≡ cancelled (contexts ps)
unfolding clear_pending_sends
clear_pending_sends-cancelled [] = refl
clear_pending_sends-cancelled (p ∷ ps) =
    frame_completion-cancelled p.callback (clear_pending_sends ps) (contexts ps)
      (clear_pending_sends-cancelled ps)

-- The client while it closes.
abbrev closing : Session → Bool → Session
closing s on_close = record s {
  client = record s.client {
    on_ws_close_complete = on_close;
    uws_state = uws_closing_underlying_io;
    clock = s.client.clock + 1;
  };
}

closing-start :
    (w : World) (s : Session) (on_close : Bool)
    → w.close_ok s.client.clock ≡ true
    → start_closing w s on_close
      ≡ record { status = success; session = closing s on_close; events = indicated io_closes ∷ [] }
unfolding start_closing replies deliver
closing-start w s on_close accepted = rw accepted refl

-- The client whose underlying IO cannot be closed: it keeps the sends that wait.
abbrev pub stuck : Session → Bool → Session
stuck s on_close = record s {
  client = record s.client {
    on_ws_close_complete = on_close;
    uws_state = uws_error;
    clock = s.client.clock + 1;
  };
}

closing-fail :
    (w : World) (s : Session) (on_close : Bool)
    → w.close_ok s.client.clock ≡ false
    → start_closing w s on_close ≡ record {
      status = failure;
      session = stuck s on_close;
      events = indicated io_closes ∷ indicated (error_indicated cannot_close_underlying_io) ∷ [];
    }
unfolding start_closing replies deliver indicate_ws_error
closing-fail w s on_close failed = rw failed refl

abbrev closed : Session → Bool → Session
closed s on_close = record s {
  client = record (closing s on_close).client { uws_state = uws_closed };
  pending_sends = [];
}

abbrev complete : Bool → List SessionEvent
complete on_close = if on_close then indicated close_completed ∷ [] else []

closing-end :
    (w : World) (s : Session) (on_close : Bool)
    → on_underlying_io w (closing s on_close) io_close_complete
      ≡ some (record {
        status = success;
        session = closed s on_close;
        events = cancelled (contexts s.pending_sends) ++ complete on_close;
      })
unfolding on_underlying_io on_underlying_io_close_complete indicate_ws_close_complete replies
    deliver
closing-end w s true = rw (clear_pending_sends-cancelled s.pending_sends) refl
closing-end w s false = rw (clear_pending_sends-cancelled s.pending_sends) refl

-- What uws_client_close_async does, by whether the client is CLOSED and whether xio_close succeeds.
abbrev pub Closes : World → Session → Bool → (is_closed accepted : Bool) → Type 0
Closes w s on_close true accepted =
    step w s (closes on_close) ≡ some (record { status = failure; session = s; events = [] })
Closes w s on_close false false =
    step w s (closes on_close)
    ≡ some (record {
      status = failure;
      session = stuck s on_close;
      events = indicated io_closes ∷ indicated (error_indicated cannot_close_underlying_io) ∷ [];
    })
Closes w s on_close false true =
    (asked ended reopened : Reply) × (step w s (closes on_close) ≡ some asked)
    × (asked.status ≡ success)
    × (asked.events ≡ indicated io_closes ∷ [])
    × (step w asked.session (io_calls io_close_complete) ≡ some ended)
    × (ended.events
        ≡ cancelled (contexts s.pending_sends)
          ++ (if on_close then indicated close_completed ∷ [] else []))
    × (ended.session.client.uws_state ≡ uws_closed)
    × (ended.session.pending_sends ≡ [])
    × (step w ended.session (opens true) ≡ some reopened)
    × (reopened.status ≡ success)
    × (reopened.session.client.stream ≡ [])
    × (reopened.session.client.fragments ≡ [])

by_cases :
    (w : World) (s : Session) (on_close : Bool) (is_done accepted : Bool)
    → s.callbacks ≡ true
    → is_closed s.client.uws_state ≡ is_done
    → w.close_ok s.client.clock ≡ accepted
    → Closes w s on_close is_done accepted
unfolding step open_async start_opening replies deliver
by_cases w s on_close true accepted there state answer =
    ap some (close_async-refused w s s.client.uws_state on_close state)
by_cases w s on_close false false there state answer =
    ap some
      (close_async-start w s s.client.uws_state on_close state ∙ closing-fail w s on_close answer)
by_cases w s on_close false true there state answer = (
  _,
  record {
    status = success;
    session = closed s on_close;
    events = cancelled (contexts s.pending_sends) ++ complete on_close;
  },
  _,
  ap some
      (close_async-start w s s.client.uws_state on_close state ∙ closing-start w s on_close answer),
  refl,
  refl,
  rw there (closing-end w (record s { callbacks = true }) on_close),
  refl,
  refl,
  refl,
  refl,
  refl,
  refl,
  refl,
)

-- uws_client_close_async on a client that has been opened. If it is CLOSED, the call fails and
-- changes nothing. In any other state, xio_close is called; if it fails, so does the call, the error is
-- indicated, the client is in the state ERROR, and the sends that wait still do. If it succeeds, the
-- call returns success, and when the underlying IO reports that it is closed, the callback of each
-- send that waits and has one is called as cancelled, in order and once, then on_ws_close_complete
-- if the close gave one, and nothing else; the client is CLOSED with no send that waits, and the
-- next uws_client_open_async, if xio_open succeeds, returns success with nothing left of the bytes
-- and fragments of before.
pub close_async-Closes :
    (w : World) (s : Session) (on_close : Bool)
    → s.callbacks ≡ true
    → Closes w s on_close (is_closed s.client.uws_state) (w.close_ok s.client.clock)
close_async-Closes w s on_close there = by_cases w s on_close _ _ there refl refl
