-- ===== src/UwsClient/Session/Runs.antt =====
-- The runs of a session of src/uws_client.c: any calls of its user and of the underlying IO.
use azure_c_shared_utility.Base.{
  ℕ, ◌+◌, ◌≤◌, ◌<◌, ◌≡◌, ◌∙◌, ap, some, List, [], ◌++◌, Exec, arith, bind-inv, some-injective,
  false,
}
use azure_c_shared_utility.UwsClient.{
  UwsState, uws_closed, uws_opening_underlying_io, uws_waiting_for_upgrade_response, uws_open,
  uws_closing_waiting_for_close, uws_closing_sending_close, uws_closing_underlying_io, uws_error,
  World,
}
use azure_c_shared_utility.UwsClient.Session.{
  SendFrameResult, PendingSend, Session, SessionEvent, Reply, created, complete_all,
  clear_pending_sends,
}
use azure_c_shared_utility.UwsClient.Session.Calls.{SessionCall, step, close_to_destroy, destroy}
use azure_c_shared_utility.UwsClient.Session.Count.{
  due, completed, completed-append, completed-clear_pending_sends,
}
use azure_c_shared_utility.UwsClient.Session.Items.{complete_all-inv}
use azure_c_shared_utility.UwsClient.Session.Balance.{
  After, Bounded, Balanced, no_sends, close_async-Balanced, refused-Balanced,
}
use azure_c_shared_utility.UwsClient.Session.Queued.{accepted_frames, asked_frames, step-Balanced}

-- A session with what happened to it, and the frames that were accepted and asked for, by the
-- context of their callback.
pub record History : Type 0 where
  pub session : Session
  pub events : List SessionEvent
  pub accepted : ℕ → ℕ
  pub asked : ℕ → ℕ

abbrev pub at_start : History
at_start = record { session = created; events = []; accepted = no_sends; asked = no_sends }

abbrev pub extended : History → SessionCall → Reply → History
extended h call r = record {
  session = r.session;
  events = h.events ++ r.events;
  accepted = λ c. h.accepted c + accepted_frames call r.status c;
  asked = λ c. h.asked c + asked_frames call c;
}

-- The histories that calls lead to.
pub data Reach : World → History → Type 0 where
  start : {w : World} → Reach w at_start
  next :
      {w : World} {h : History} {r : Reply} (call : SessionCall)
      → Reach w h
      → step w h.session call ≡ some r
      → Reach w (extended h call r)

at_reply :
    (P : Reply → Type 0) {reply : Exec Reply} (r : Reply) → reply ≡ some r → After P reply → P r
at_reply P r e h = coe 0 1 (i. After P (e i)) h

next-Balanced :
    (w : World) (h : History) (r : Reply) (call : SessionCall)
    → Bounded h.session
    → step w h.session call ≡ some r
    → Balanced h.session (accepted_frames call r.status) (asked_frames call) r
next-Balanced w h r call old e =
    at_reply (λ r. Balanced h.session (accepted_frames call r.status) (asked_frames call) r) r e
      (step-Balanced w h.session call old)

Reach-Bounded : {w : World} {h : History} → Reach w h → Bounded h.session
Reach-Bounded start = _
Reach-Bounded (next {w} {h} {r} call before e) =
    (next-Balanced w h r call (Reach-Bounded before) e).0

-- In every history of a client, whatever the IO does: for each context, on_ws_send_frame_complete
-- was called with it or is still due at least as often as uws_client_send_frame_async has accepted a
-- frame with it, and no more often than it was called with it.
pub Reach-frames :
    {w : World} {h : History}
    → Reach w h
    → (c : ℕ)
    → (h.accepted c ≤ completed c h.events + due c h.session.pending_sends)
      × (completed c h.events + due c h.session.pending_sends ≤ h.asked c)
Reach-frames start c = (omega arith, omega arith)
Reach-frames (next {w} {h} {r} call before e) c =
    let (old, count) = next-Balanced w h r call (Reach-Bounded before) e in
    let (least, most) = Reach-frames before c in
    (
      omega (arith, least, (count c).0, completed-append c h.events r.events),
      omega (arith, most, (count c).1, completed-append c h.events r.events),
    )

close_to_destroy-Balanced :
    (w : World) (s : Session) (state : UwsState)
    → Bounded s
    → Balanced s no_sends no_sends (close_to_destroy w s state)
unfolding close_to_destroy
close_to_destroy-Balanced w s uws_open old = close_async-Balanced w s s.client.uws_state false old
close_to_destroy-Balanced w s uws_error old = close_async-Balanced w s s.client.uws_state false old
close_to_destroy-Balanced w s uws_closed old = refused-Balanced s no_sends old
close_to_destroy-Balanced w s uws_opening_underlying_io old = refused-Balanced s no_sends old
close_to_destroy-Balanced w s uws_waiting_for_upgrade_response old = refused-Balanced s no_sends old
close_to_destroy-Balanced w s uws_closing_waiting_for_close old = refused-Balanced s no_sends old
close_to_destroy-Balanced w s uws_closing_sending_close old = refused-Balanced s no_sends old
close_to_destroy-Balanced w s uws_closing_underlying_io old = refused-Balanced s no_sends old

-- Once uws_client_destroy has returned, on any client that calls have led to: for each context,
-- on_ws_send_frame_complete was called with it at least as often as uws_client_send_frame_async
-- has accepted a frame with it, and no more often than it was called with it: once for a context
-- of one accepted frame.
pub destroy-frames :
    {w : World} {h : History}
    → Reach w h
    → (during : List (ℕ × SendFrameResult)) (events : List SessionEvent)
    → destroy w h.session during ≡ some events
    → (c : ℕ)
    → (h.accepted c ≤ completed c (h.events ++ events))
      × (completed c (h.events ++ events) ≤ h.asked c)
unfolding destroy
destroy-frames {w} {h} reached during events e c =
    let closed = close_to_destroy w h.session h.session.client.uws_state in
    let (old, count) =
      close_to_destroy-Balanced w h.session h.session.client.uws_state (Reach-Bounded reached) in
    let (r, e1, e2) = bind-inv _ (complete_all closed.session during) events e in
    let (known, numbers, left) =
      complete_all-inv (λ (p : PendingSend). p.item < closed.session.next_item) closed.session
        during r e1 old in
    let same : closed.events ++ (r.1 ++ clear_pending_sends r.0.pending_sends) ≡ events =
      some-injective e2 in
    let all : completed c (h.events ++ events)
        ≡ completed c h.events
          + (completed c closed.events + (completed c r.1 + due c r.0.pending_sends)) =
      completed-append c h.events events
      ∙ omega (
        arith,
        ap (completed c) same,
        completed-append c closed.events (r.1 ++ clear_pending_sends r.0.pending_sends),
        completed-append c r.1 (clear_pending_sends r.0.pending_sends),
        completed-clear_pending_sends c r.0.pending_sends,
      ) in
    let (least, most) = Reach-frames reached c in
    (omega (arith, all, least, (count c).0, left c), omega (arith, all, most, (count c).1, left c))
