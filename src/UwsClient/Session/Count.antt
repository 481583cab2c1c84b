-- ===== src/UwsClient/Session/Count.antt =====
-- Counting what src/uws_client.c owes to the senders of frames and what it has done.
use azure_c_shared_utility.Base.{
  ℕ, ◌+◌, ◌≡◌, refl, Option, none, some, List, [], ◌∷◌, ◌++◌, ◌==◌, if◌then◌else◌, arith,
}
use azure_c_shared_utility.UwsClient.{
  Event, open_completed, frame_received, error_indicated, peer_closed, io_sends, io_opens,
  io_closes, pending_sends_cleared, close_completed,
}
use azure_c_shared_utility.UwsClient.Session.{
  SendFrameResult, send_frame_cancelled, PendingSend, SessionEvent, indicated, send_frame_completed,
  frame_completion, clear_pending_sends, deliver,
}

-- How often a callback with context `c` is meant.
abbrev pub times : ℕ → Option ℕ → ℕ
times c none = 0
times c (some context) = if context == c then 1 else 0

abbrev pub due : ℕ → List PendingSend → ℕ
due c [] = 0
due c (p ∷ ps) = times c p.callback + due c ps

-- How often on_ws_send_frame_complete was called with context `c`.
abbrev pub completed : ℕ → List SessionEvent → ℕ
completed c [] = 0
completed c (send_frame_completed context result ∷ es) = times c (some context) + completed c es
completed c (indicated e ∷ es) = completed c es

pub completed-append :
    (c : ℕ) (xs ys : List SessionEvent) → completed c (xs ++ ys) ≡ completed c xs + completed c ys
completed-append c [] ys = omega arith
completed-append c (send_frame_completed context result ∷ es) ys =
    omega (arith, completed-append c es ys)
completed-append c (indicated e ∷ es) ys = completed-append c es ys

pub due-append : (c : ℕ) (xs ys : List PendingSend) → due c (xs ++ ys) ≡ due c xs + due c ys
due-append c [] ys = omega arith
due-append c (p ∷ xs) ys = omega (arith, due-append c xs ys)

pub completed-frame_completion :
    (c : ℕ) (callback : Option ℕ) (result : SendFrameResult)
    → completed c (frame_completion callback result) ≡ times c callback
unfolding frame_completion
completed-frame_completion c none result = refl
completed-frame_completion c (some context) result = omega arith

pub completed-clear_pending_sends :
    (c : ℕ) (ps : List PendingSend) → completed c (clear_pending_sends ps) ≡ due c ps
unfolding clear_pending_sends
completed-clear_pending_sends c [] = refl
completed-clear_pending_sends c (p ∷ ps) = omega (
  arith,
  completed-append c (frame_completion p.callback send_frame_cancelled) (clear_pending_sends ps),
  completed-frame_completion c p.callback send_frame_cancelled,
  completed-clear_pending_sends c ps,
)

-- The sends that a handler finds are the ones it cancels and the ones it leaves.
pub deliver-due :
    (c : ℕ) (ps : List PendingSend) (es : List Event)
    → due c ps ≡ completed c (deliver ps es).0 + due c (deliver ps es).1
unfolding deliver
deliver-due c ps [] = omega arith
deliver-due c ps (pending_sends_cleared ∷ es) = omega (
  arith,
  completed-append c (clear_pending_sends ps) (deliver [] es).0,
  completed-clear_pending_sends c ps,
  deliver-due c [] es,
)
deliver-due c ps (open_completed result ∷ es) = deliver-due c ps es
deliver-due c ps (frame_received frame_type bytes ∷ es) = deliver-due c ps es
deliver-due c ps (error_indicated error ∷ es) = deliver-due c ps es
deliver-due c ps (peer_closed code extra ∷ es) = deliver-due c ps es
deliver-due c ps (io_sends bytes ∷ es) = deliver-due c ps es
deliver-due c ps (io_opens ∷ es) = deliver-due c ps es
deliver-due c ps (io_closes ∷ es) = deliver-due c ps es
deliver-due c ps (close_completed ∷ es) = deliver-due c ps es
