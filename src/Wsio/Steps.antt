-- ===== src/Wsio/Steps.antt =====
-- The calls of the user in src/wsio.c, and runs of calls.
use azure_c_shared_utility.Wsio.{indicate}
use azure_c_shared_utility.Base.{
  ◌<◌, All, ℕ, ◌≡◌, ap, refl, Bool, true, false, Option, List, [], ◌∷◌, ◌++◌, if◌then◌else◌,
  Option-cases, inl, inr, Outcomes, arith,
}
use azure_c_shared_utility.Wsio.{
  IoState, io_not_open, io_opening, io_open, io_closing, io_error, send_cancelled, Pending, Wsio,
  Outcome, completion, UwsCall, close_event, on_uws, on_uws_all, cancellations, close_open,
  internal_close, start_open, wsio_open, wsio_send, Call, opens, closes, sends, uws, step,
}
use azure_c_shared_utility.Wsio.Count.{
  due, completed, opened, opening, completed-append, opened-append,
}
use azure_c_shared_utility.Wsio.Sends.{
  after_close, accepted_send, accepted_open, Fresh, SendEnds, wsio_send-Ends,
}
use azure_c_shared_utility.Wsio.Items.{on_uws-Kept}
use azure_c_shared_utility.Wsio.Invariant.{
  After, Balanced, no_sends, IsTimely, on_uws-Balanced, completed-completion, opened-completion,
  completed-close_event, opened-close_event, indicate-Balanced, refused-Balanced,
}

completed-cancellations : (c : ℕ) (ps : List Pending) → completed c (cancellations ps) ≡ due c ps
unfolding cancellations
completed-cancellations c [] = refl
completed-cancellations c (p ∷ ps) = omega (
  arith,
  completed-append c (completion p.callback send_cancelled) (cancellations ps),
  completed-completion c p.callback send_cancelled,
  completed-cancellations c ps,
)

opened-cancellations : (ps : List Pending) → opened (cancellations ps) ≡ 0
unfolding cancellations
opened-cancellations [] = refl
opened-cancellations (p ∷ ps) = omega (
  arith,
  opened-append (completion p.callback send_cancelled) (cancellations ps),
  opened-completion p.callback send_cancelled,
  opened-cancellations ps,
)

ended_sends :
    (c : ℕ) (on_close : Option ℕ) (uws_ok : Bool)
    → completed c (if uws_ok then [] else close_event on_close) ≡ 0
ended_sends c on_close true = refl
ended_sends c on_close false = completed-close_event c on_close

ended_opens :
    (on_close : Option ℕ) (uws_ok : Bool) → opened (if uws_ok then [] else close_event on_close) ≡ 0
ended_opens on_close true = refl
ended_opens on_close false = opened-close_event on_close

close_open-Balanced :
    (w : Wsio) (uws_ok : Bool) (during : List UwsCall)
    → opening w.io_state ≡ 0
    → After (λ o. Balanced w no_sends 0 o × (o.wsio.pending ≡ [])) (close_open w uws_ok during)
unfolding close_open
close_open-Balanced w uws_ok during idle = elim (Option-cases (on_uws_all w during)) [
  | inl missing ↦ rw missing _
  | inr (r, there) ↦
      let (sent, opened_none) = after_close w during r idle there in
      let ended = if uws_ok then [] else close_event r.0.on_close in
      rw there (
        (
          λ c. omega (
            arith,
            sent c,
            completed-append c r.1 (ended ++ cancellations r.0.pending),
            completed-append c ended (cancellations r.0.pending),
            completed-cancellations c r.0.pending,
            ended_sends c r.0.on_close uws_ok,
          ),
          omega (
            arith,
            opened-append r.1 (ended ++ cancellations r.0.pending),
            opened-append ended (cancellations r.0.pending),
            opened-cancellations r.0.pending,
            ended_opens r.0.on_close uws_ok,
          ),
        ),
        refl,
      )
]

wsio_open-Balanced :
    (w : Wsio) (state : IoState) (context : ℕ) (uws_ok : Bool)
    → w.io_state ≡ state
    → After
        (λ o. Balanced w no_sends (accepted_open (opens context uws_ok) o.status) o)
        (wsio_open w state context uws_ok)
unfolding wsio_open start_open
wsio_open-Balanced w io_not_open context true e = (λ c. omega arith, omega (arith, ap opening e))
wsio_open-Balanced w io_not_open context false e = (λ c. omega arith, omega arith)
wsio_open-Balanced w io_opening context uws_ok e = refused-Balanced w
wsio_open-Balanced w io_open context uws_ok e = refused-Balanced w
wsio_open-Balanced w io_closing context uws_ok e = refused-Balanced w
wsio_open-Balanced w io_error context uws_ok e = refused-Balanced w

from_idle :
    (w : Wsio) (on_close : Option ℕ) (uws_ok : Bool) (during : List UwsCall)
    → opening w.io_state ≡ 0
    → After
        (Balanced w no_sends 0)
        (close_open (record w { io_state = io_closing; on_close = on_close }) uws_ok during)
from_idle w on_close uws_ok during idle = elim (Option-cases (close_open closing_w uws_ok during)) [
  | inl missing ↦ rw missing _
  | inr (o, there) ↦
      let (balance, none_left) = rw there at (close_open-Balanced closing_w uws_ok during refl) in
      rw there (balance.0, omega (arith, balance.1))
]
  where
    closing_w : Wsio
    closing_w = record w { io_state = io_closing; on_close = on_close }

internal_close-Balanced :
    (w : Wsio) (state : IoState) (on_close : Option ℕ) (uws_ok : Bool) (during : List UwsCall)
    → w.io_state ≡ state
    → After (Balanced w no_sends 0) (internal_close w state on_close uws_ok during)
unfolding internal_close
internal_close-Balanced w io_not_open on_close uws_ok during e = refused-Balanced w
internal_close-Balanced w io_opening on_close uws_ok during e =
    indicate-Balanced w io_opening io_not_open _ e (λ c h. refl) (λ h. refl)
internal_close-Balanced w io_closing on_close uws_ok during e = refused-Balanced w
internal_close-Balanced w io_open on_close uws_ok during e =
    from_idle w on_close uws_ok during (ap opening e)
internal_close-Balanced w io_error on_close uws_ok during e =
    from_idle w on_close uws_ok during (ap opening e)

abbrev pub Timely : Wsio → Call → Type 0
Timely w (uws call) = IsTimely w call
Timely w _ = Unit

-- The end of wsio_send, with what holds of it.
at_send_end :
    (P : Outcome → Type 0) (w : Wsio) (got : Outcomes) (callback : Option ℕ) (uws_ok : Bool)
    (during : List UwsCall)
    → Fresh w
    → ((o : Outcome) → SendEnds w callback o → P o)
    → After P (wsio_send w w.io_state got callback uws_ok during)
at_send_end P w got callback uws_ok during fresh f =
    elim (Option-cases (wsio_send w w.io_state got callback uws_ok during)) [
      | inl missing ↦ rw missing _
      | inr (o, there) ↦
          let ends = wsio_send-Ends w w.io_state got callback uws_ok during refl fresh in
          rw there (f o (rw there at ends))
    ]

-- The sends and opens that a call accepts, and what is under way before it, are what it completes
-- and what is under way behind it.
pub step-Balanced :
    (w : Wsio) (call : Call)
    → Timely w call
    → Fresh w
    → After
        (λ o. Balanced w (λ c. accepted_send c call o.status) (accepted_open call o.status) o)
        (step w call)
unfolding step
step-Balanced w (opens context uws_ok) timely fresh =
    wsio_open-Balanced w w.io_state context uws_ok refl
step-Balanced w (closes on_close uws_ok during) timely fresh =
    internal_close-Balanced w w.io_state on_close uws_ok during refl
step-Balanced w (sends got callback uws_ok during) timely fresh =
    at_send_end
      (λ o. Balanced w (λ c. accepted_send c (sends got callback uws_ok during) o.status) 0 o) w got
      callback uws_ok during fresh (λ o ends. ends.0)
step-Balanced w (uws call) timely fresh = on_uws-Balanced w call timely

wsio_open-Fresh :
    (w : Wsio) (state : IoState) (context : ℕ) (uws_ok : Bool)
    → Fresh w
    → After (λ o. Fresh o.wsio) (wsio_open w state context uws_ok)
unfolding wsio_open start_open
wsio_open-Fresh w io_not_open context true fresh = fresh
wsio_open-Fresh w io_not_open context false fresh = fresh
wsio_open-Fresh w io_opening context uws_ok fresh = fresh
wsio_open-Fresh w io_open context uws_ok fresh = fresh
wsio_open-Fresh w io_closing context uws_ok fresh = fresh
wsio_open-Fresh w io_error context uws_ok fresh = fresh

close_open-Fresh :
    (w : Wsio) (uws_ok : Bool) (during : List UwsCall)
    → After (λ o. Fresh o.wsio) (close_open w uws_ok during)
unfolding close_open
close_open-Fresh w uws_ok during = elim (Option-cases (on_uws_all w during)) [
  | inl missing ↦ rw missing _
  | inr (r, there) ↦ rw there _
]

internal_close-Fresh :
    (w : Wsio) (state : IoState) (on_close : Option ℕ) (uws_ok : Bool) (during : List UwsCall)
    → Fresh w
    → After (λ o. Fresh o.wsio) (internal_close w state on_close uws_ok during)
unfolding internal_close indicate
internal_close-Fresh w io_not_open on_close uws_ok during fresh = fresh
internal_close-Fresh w io_opening on_close uws_ok during fresh = elim (Option-cases w.handlers) [
  | inl missing ↦ rw missing _
  | inr (h, there) ↦ rw there fresh
]
internal_close-Fresh w io_closing on_close uws_ok during fresh = fresh
internal_close-Fresh w io_open on_close uws_ok during fresh = close_open-Fresh _ uws_ok during
internal_close-Fresh w io_error on_close uws_ok during fresh = close_open-Fresh _ uws_ok during

-- The handles stay below that of the next item.
pub step-Fresh : (w : Wsio) (call : Call) → Fresh w → After (λ o. Fresh o.wsio) (step w call)
unfolding step
step-Fresh w (opens context uws_ok) fresh = wsio_open-Fresh w w.io_state context uws_ok fresh
step-Fresh w (closes on_close uws_ok during) fresh =
    internal_close-Fresh w w.io_state on_close uws_ok during fresh
step-Fresh w (sends got callback uws_ok during) fresh =
    at_send_end (λ o. Fresh o.wsio) w got callback uws_ok during fresh (λ o ends. ends.1)
step-Fresh w (uws call) fresh = elim (Option-cases (on_uws w call)) [
  | inl missing ↦ rw missing _
  | inr (o, there) ↦
      let (keep, next) = on_uws-Kept (λ (p : Pending). p.item < w.next_item) w call o there in
      rw there (coe 1 0 (i. All (λ (p : Pending). p.item < next i) o.wsio.pending) (keep fresh))
]
