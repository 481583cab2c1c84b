-- ===== src/Wsio/Invariant.antt =====
-- What each call back into src/wsio.c does to the sends and the opens that are under way.
use azure_c_shared_utility.Base.{
  ℕ, ◌+◌, ◌≡◌, ◌∙◌, ap, refl, Bool, true, false, Option, none, some, List, [], ◌∷◌, ltb, ◌==◌,
  Bool-cases, Option-cases, absurd_none, some-injective, bind-inv, inl, inr, Bytes, Exec, ◌>>=◌,
  arith,
}
use azure_c_shared_utility.Wsio.{
  IoState, io_not_open, io_opening, io_open, io_closing, io_error, OpenResult, open_ok, open_error,
  open_cancelled, SendResult, Event, Pending, Wsio, Outcome, done, refused, indicate,
  indicate_error, completion, take_item, complete_send_item, UwsCall, ws_open_complete,
  ws_frame_received, ws_peer_closed, ws_error, ws_close_complete, ws_send_frame_complete,
  on_ws_open_complete, on_ws_frame_received, on_ws_peer_closed, on_ws_error, close_event,
  on_ws_close_complete, on_uws,
}
use azure_c_shared_utility.Wsio.Count.{times, due, completed, opened, opening}

-- What holds of the outcome, if there is one.
abbrev pub After : (Outcome → Type 0) → Exec Outcome → Type 0
After P none = Unit
After P (some o) = P o

-- The sends that are due, with `sent` new ones, are completed or still due; the open that is under
-- way, with `new` ones, is completed or still under way.
abbrev pub Balanced : Wsio → (ℕ → ℕ) → ℕ → Outcome → Type 0
Balanced w sent new o =
    ((c : ℕ) → due c w.pending + sent c ≡ completed c o.events + due c o.wsio.pending)
    × (opening w.io_state + new ≡ opened o.events + opening o.wsio.io_state)

abbrev pub no_sends : ℕ → ℕ
no_sends c = 0

pub indicate-Balanced :
    (w : Wsio) (before state : IoState) (event : ℕ → Event)
    → w.io_state ≡ before
    → ((c h : ℕ) → completed c (event h ∷ []) ≡ 0)
    → ((h : ℕ) → opening before ≡ opened (event h ∷ []) + opening state)
    → After (Balanced w no_sends 0) (indicate w state event)
unfolding indicate
indicate-Balanced w before state event e no_send balance = elim (Option-cases w.handlers) [
  | inl missing ↦ rw missing _
  | inr (h, there) ↦
      rw there (λ c. omega (arith, no_send c h), omega (arith, balance h, ap opening e))
]

pub done-Balanced : (w : Wsio) → After (Balanced w no_sends 0) (done w [])
done-Balanced w = (λ c. omega arith, omega arith)

pub refused-Balanced : (w : Wsio) → After (Balanced w no_sends 0) (refused w)
refused-Balanced w = (λ c. omega arith, omega arith)

pub completed-completion :
    (c : ℕ) (callback : Option ℕ) (result : SendResult)
    → completed c (completion callback result) ≡ times c callback
unfolding completion
completed-completion c none result = refl
completed-completion c (some context) result = omega arith

pub opened-completion :
    (callback : Option ℕ) (result : SendResult) → opened (completion callback result) ≡ 0
unfolding completion
opened-completion none result = refl
opened-completion (some context) result = refl

pub take_item-due :
    (item c : ℕ) (ps : List Pending) (found : Pending × List Pending)
    → take_item item ps ≡ some found
    → due c ps ≡ times c found.0.callback + due c found.1
unfolding take_item
take_item-due item c [] found e = absurd_none e
take_item-due item c (p ∷ ps) found e = elim (Bool-cases (p.item == item)) [
  | inl here ↦
      let same : (p, ps) ≡ found = some-injective (rw (here, take_item) at e) in
      ap (λ t. times c t.0.callback + due c t.1) same
  | inr there ↦
      let after_head : (take_item item ps >>= λ (f : Pending × List Pending). some (f.0, p ∷ f.1))
          ≡ some found =
        rw (there, take_item) at e in
      let (later, e1, e2) =
        bind-inv (λ (f : Pending × List Pending). some (f.0, p ∷ f.1)) (take_item item ps) found
          after_head in
      let same : (later.0, p ∷ later.1) ≡ found = some-injective e2 in
      omega (arith, take_item-due item c ps later e1)
      ∙ ap (λ t. times c t.0.callback + due c t.1) same
]

complete_send_item-Balanced :
    (w : Wsio) (item : ℕ) (result : SendResult)
    → After (Balanced w no_sends 0) (complete_send_item w item result)
unfolding complete_send_item
complete_send_item-Balanced w item result = elim (Option-cases (take_item item w.pending)) [
  | inl missing ↦ rw missing _
  | inr (found, there) ↦ rw there (
    λ c. omega (
      arith,
      completed-completion c found.0.callback result,
      take_item-due item c w.pending found there,
    ),
    omega (arith, opened-completion found.0.callback result),
  )
]

on_ws_open_complete-Balanced :
    (w : Wsio) (state : IoState) (result : OpenResult)
    → w.io_state ≡ state
    → After (Balanced w no_sends 0) (on_ws_open_complete w state result)
unfolding on_ws_open_complete indicate_error
on_ws_open_complete-Balanced w io_opening open_ok e =
    indicate-Balanced w io_opening io_open _ e (λ c h. refl) (λ h. refl)
on_ws_open_complete-Balanced w io_opening open_error e =
    indicate-Balanced w io_opening io_not_open _ e (λ c h. refl) (λ h. refl)
on_ws_open_complete-Balanced w io_opening open_cancelled e =
    indicate-Balanced w io_opening io_not_open _ e (λ c h. refl) (λ h. refl)
on_ws_open_complete-Balanced w io_not_open result e =
    indicate-Balanced w io_not_open io_error _ e (λ c h. refl) (λ h. refl)
on_ws_open_complete-Balanced w io_open result e =
    indicate-Balanced w io_open io_error _ e (λ c h. refl) (λ h. refl)
on_ws_open_complete-Balanced w io_closing result e =
    indicate-Balanced w io_closing io_error _ e (λ c h. refl) (λ h. refl)
on_ws_open_complete-Balanced w io_error result e =
    indicate-Balanced w io_error io_error _ e (λ c h. refl) (λ h. refl)

on_ws_frame_received-Balanced :
    (w : Wsio) (state : IoState) (is_binary : Bool) (buffer : Option Bytes) (size : ℕ)
    → w.io_state ≡ state
    → After (Balanced w no_sends 0) (on_ws_frame_received w state is_binary buffer size)
unfolding on_ws_frame_received indicate_error
on_ws_frame_received-Balanced w io_open false buffer size e =
    indicate-Balanced w io_open io_error _ e (λ c h. refl) (λ h. refl)
on_ws_frame_received-Balanced w io_open true none size e = elim (Bool-cases (ltb 0 size)) [
  | inl some_bytes ↦
      rw some_bytes (indicate-Balanced w io_open io_error _ e (λ c h. refl) (λ h. refl))
  | inr no_bytes ↦ rw no_bytes (done-Balanced w)
]
on_ws_frame_received-Balanced w io_open true (some bytes) size e = elim (Bool-cases (ltb 0 size)) [
  | inl some_bytes ↦
      rw some_bytes (indicate-Balanced w io_open io_open _ e (λ c h. refl) (λ h. refl))
  | inr no_bytes ↦ rw no_bytes (done-Balanced w)
]
on_ws_frame_received-Balanced w io_not_open is_binary buffer size e = done-Balanced w
on_ws_frame_received-Balanced w io_opening is_binary buffer size e = done-Balanced w
on_ws_frame_received-Balanced w io_closing is_binary buffer size e = done-Balanced w
on_ws_frame_received-Balanced w io_error is_binary buffer size e = done-Balanced w

on_ws_peer_closed-Balanced :
    (w : Wsio) (state : IoState)
    → w.io_state ≡ state
    → After (Balanced w no_sends 0) (on_ws_peer_closed w state)
unfolding on_ws_peer_closed indicate_error
on_ws_peer_closed-Balanced w io_not_open e =
    indicate-Balanced w io_not_open io_not_open _ e (λ c h. refl) (λ h. refl)
on_ws_peer_closed-Balanced w io_opening e =
    indicate-Balanced w io_opening io_not_open _ e (λ c h. refl) (λ h. refl)
on_ws_peer_closed-Balanced w io_open e =
    indicate-Balanced w io_open io_error _ e (λ c h. refl) (λ h. refl)
on_ws_peer_closed-Balanced w io_closing e =
    indicate-Balanced w io_closing io_error _ e (λ c h. refl) (λ h. refl)
on_ws_peer_closed-Balanced w io_error e =
    indicate-Balanced w io_error io_error _ e (λ c h. refl) (λ h. refl)

on_ws_error-Balanced :
    (w : Wsio) (state : IoState)
    → w.io_state ≡ state
    → After (Balanced w no_sends 0) (on_ws_error w state)
unfolding on_ws_error
on_ws_error-Balanced w io_not_open e =
    indicate-Balanced w io_not_open io_not_open _ e (λ c h. refl) (λ h. refl)
on_ws_error-Balanced w io_opening e =
    indicate-Balanced w io_opening io_not_open _ e (λ c h. refl) (λ h. refl)
on_ws_error-Balanced w io_open e = indicate-Balanced w io_open io_open _ e (λ c h. refl) (λ h. refl)
on_ws_error-Balanced w io_closing e =
    indicate-Balanced w io_closing io_closing _ e (λ c h. refl) (λ h. refl)
on_ws_error-Balanced w io_error e =
    indicate-Balanced w io_error io_error _ e (λ c h. refl) (λ h. refl)

pub completed-close_event : (c : ℕ) (callback : Option ℕ) → completed c (close_event callback) ≡ 0
unfolding close_event
completed-close_event c none = refl
completed-close_event c (some context) = refl

pub opened-close_event : (callback : Option ℕ) → opened (close_event callback) ≡ 0
unfolding close_event
opened-close_event none = refl
opened-close_event (some context) = refl

-- The client reports the end of a close only when no open is under way.
on_ws_close_complete-Balanced :
    (w : Wsio) → opening w.io_state ≡ 0 → After (Balanced w no_sends 0) (on_ws_close_complete w)
unfolding on_ws_close_complete
on_ws_close_complete-Balanced w e = (
  λ c. omega (arith, completed-close_event c w.on_close),
  omega (arith, opened-close_event w.on_close),
)

-- The condition of `on_ws_close_complete-Balanced` on a call.
abbrev pub IsTimely : Wsio → UwsCall → Type 0
IsTimely w ws_close_complete = opening w.io_state ≡ 0
IsTimely w _ = Unit

pub on_uws-Balanced :
    (w : Wsio) (call : UwsCall) → IsTimely w call → After (Balanced w no_sends 0) (on_uws w call)
unfolding on_uws
on_uws-Balanced w (ws_open_complete result) timely =
    on_ws_open_complete-Balanced w w.io_state result refl
on_uws-Balanced w (ws_frame_received is_binary buffer size) timely =
    on_ws_frame_received-Balanced w w.io_state is_binary buffer size refl
on_uws-Balanced w ws_peer_closed timely = on_ws_peer_closed-Balanced w w.io_state refl
on_uws-Balanced w ws_error timely = on_ws_error-Balanced w w.io_state refl
on_uws-Balanced w ws_close_complete timely = on_ws_close_complete-Balanced w timely
on_uws-Balanced w (ws_send_frame_complete item result) timely =
    complete_send_item-Balanced w item result
