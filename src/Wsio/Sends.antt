-- ===== src/Wsio/Sends.antt =====
-- wsio_send of src/wsio.c, with the calls that the WebSocket client makes during it.
use azure_c_shared_utility.Buffer.{Status, success, failure}
use azure_c_shared_utility.Wsio.{take_item, send_ended, with_item}
use azure_c_shared_utility.Wsio.Items.{take_item_lem, on_uws_all-Kept}
use azure_c_shared_utility.Wsio.Invariant.{take_item-due}
use azure_c_shared_utility.Base.{
  ◌<◌, ◌==◌, All, All-append, ◌⊎◌, ℕ, ◌+◌, ◌≡◌, ◌∙◌, sym, ap, refl, Bool, true, false, ◌&&◌, Option,
  some, List, [], ◌∷◌, ◌++◌, Bool-cases, Option-cases, some-injective, bind-inv, inl, inr, Outcomes,
  arith,
}
use azure_c_shared_utility.Wsio.{
  IoState, io_not_open, io_opening, io_open, io_closing, io_error, Event, Pending, Wsio, Outcome,
  UwsCall, ws_open_complete, ws_frame_received, ws_peer_closed, ws_error, ws_close_complete,
  ws_send_frame_complete, on_uws, on_uws_all, wsio_send, Call, opens, sends,
}
use azure_c_shared_utility.Wsio.Count.{
  times, due-append, due, completed, opened, opening, completed-append, opened-append, due-append,
}
use azure_c_shared_utility.Wsio.Invariant.{
  After, Balanced, no_sends, IsTimely, on_uws-Balanced, refused-Balanced,
}

-- The calls that the client makes while no open is under way.
pub after_close :
    (w : Wsio) (during : List UwsCall) (r : Wsio × List Event)
    → opening w.io_state ≡ 0
    → on_uws_all w during ≡ some r
    → ((c : ℕ) → due c w.pending ≡ completed c r.1 + due c r.0.pending)
      × (opened r.1 + opening r.0.io_state ≡ 0)
unfolding on_uws_all
after_close w [] r idle e =
    let same : (w, []) ≡ r = some-injective e in
    (
      λ c. omega arith ∙ ap (λ t. completed c t.1 + due c t.0.pending) same,
      ap (λ t. opened t.1 + opening t.0.io_state) (sym same) ∙ omega arith,
    )
after_close w (call ∷ calls) r idle e =
    let (o, e1, e') = bind-inv _ _ r e in
    let (rest, e2, e3) = bind-inv _ _ r e' in
    let same : (rest.0, o.events ++ rest.1) ≡ r = some-injective e3 in
    let (sends1, opens1) = first o e1 in
    let (sends2, opens2) = after_close o.wsio calls rest (omega arith) e2 in
    (
      λ c.
          omega (arith, sends1 c, sends2 c, completed-append c o.events rest.1)
          ∙ ap (λ t. completed c t.1 + due c t.0.pending) same,
      ap (λ t. opened t.1 + opening t.0.io_state) (sym same)
          ∙ omega (arith, opened-append o.events rest.1),
    )
  where
    timely : (call : UwsCall) → IsTimely w call
    timely ws_close_complete = idle
    timely ws_peer_closed = _
    timely ws_error = _
    timely (ws_open_complete result) = _
    timely (ws_frame_received is_binary buffer size) = _
    timely (ws_send_frame_complete item result) = _

    first : (o : Outcome) → on_uws w call ≡ some o → Balanced w no_sends 0 o
    first o e =
        coe 0 1 (i. After (Balanced w no_sends 0) (e i)) (on_uws-Balanced w call (timely call))

-- The send that a call accepts, by its callback.
abbrev pub taken : ℕ → Option ℕ → Status → ℕ
taken c callback success = times c callback
taken c callback failure = 0

-- What a call accepts: a send or an open.
abbrev pub accepted_send : ℕ → Call → Status → ℕ
accepted_send c (sends got callback uws_ok during) status = taken c callback status
accepted_send c _ _ = 0

abbrev pub accepted_open : Call → Status → ℕ
accepted_open (opens context uws_ok) success = 1
accepted_open _ _ = 0

-- The handles of the items are below that of the next.
abbrev pub Fresh : Wsio → Type 0
Fresh w = All (λ (p : Pending). p.item < w.next_item) w.pending

-- An item behind a send: an old one, or the new one with its callback.
abbrev pub OldOrNew : ℕ → Option ℕ → Pending → Type 0
OldOrNew n callback p = (p.item < n) ⊎ ((p.item ≡ n) × (p.callback ≡ callback))

All-map :
    (P Q : Pending → Type 0)
    → ((p : Pending) → P p → Q p)
    → (ps : List Pending) → All P ps
    → All Q ps
All-map P Q f [] h = _
All-map P Q f (p ∷ ps) h = (f p h.0, All-map P Q f ps h.1)

bounded :
    (n : ℕ) (callback : Option ℕ) (ps : List Pending)
    → All (OldOrNew n callback) ps
    → All (λ (p : Pending). p.item < n + 1) ps
bounded n callback ps = All-map (OldOrNew n callback) (λ (p : Pending). p.item < n + 1) below ps
  where
    below : (p : Pending) → OldOrNew n callback p → p.item < n + 1
    below p (inl old) = omega arith
    below p (inr (new, named)) = omega arith

named_new :
    (n : ℕ) (callback : Option ℕ) (p : Pending)
    → OldOrNew n callback p
    → (p.item == n) ≡ true
    → p.callback ≡ callback
named_new n callback p (inl old) e = absurd (ground arith)
named_new n callback p (inr (new, named)) e = named

with_item-All :
    (w : Wsio) (callback : Option ℕ)
    → Fresh w
    → All (OldOrNew w.next_item callback) (with_item w callback).pending
with_item-All w callback old =
    All-append (OldOrNew w.next_item callback) w.pending _
      (All-map (λ (p : Pending). p.item < w.next_item) (OldOrNew w.next_item callback)
        (λ p h. inl h) w.pending old)
      (inr (refl, refl), _)

-- What wsio_send has done when the client returns.
abbrev pub SendEnds : Wsio → Option ℕ → Outcome → Type 0
SendEnds w callback o = Balanced w (λ c. taken c callback o.status) 0 o × Fresh o.wsio

send_ended-Ends :
    (w : Wsio) (callback : Option ℕ) (during : List UwsCall) (uws_ok : Bool) (r : Wsio × List Event)
    → opening w.io_state ≡ 0
    → Fresh w
    → on_uws_all (with_item w callback) during ≡ some r
    → After (SendEnds w callback) (send_ended w.next_item uws_ok r)
unfolding send_ended
send_ended-Ends w callback during true r idle fresh there =
    let (sent, none_opened) = after_close (with_item w callback) during r idle there in
    let (keep, next) =
      on_uws_all-Kept (OldOrNew w.next_item callback) (with_item w callback) during r there in
    let known = keep (with_item-All w callback fresh) in
    (
      (
        λ c. omega (
          arith,
          sent c,
          due-append c w.pending (record { item = w.next_item; callback = callback } ∷ []),
        ),
        omega (arith, none_opened, idle),
      ),
      coe 1 0 (i. All (λ (p : Pending). p.item < next i) r.0.pending)
          (bounded w.next_item callback r.0.pending known),
    )
send_ended-Ends w callback during false r idle fresh there =
    let (sent, none_opened) = after_close (with_item w callback) during r idle there in
    let (keep, next) =
      on_uws_all-Kept (OldOrNew w.next_item callback) (with_item w callback) during r there in
    let known = keep (with_item-All w callback fresh) in
    elim (Option-cases (take_item w.next_item r.0.pending)) [
      | inl missing ↦ rw missing _
      | inr (found, taken) ↦
          let (new, here, left) =
            take_item_lem (OldOrNew w.next_item callback) w.next_item r.0.pending found taken
              known in
          let same = named_new w.next_item callback found.0 new here in
          rw taken (
            (
              λ c. omega (
                arith,
                sent c,
                due-append c w.pending (record { item = w.next_item; callback = callback } ∷ []),
                take_item-due w.next_item c r.0.pending found taken,
                ap (times c) same,
              ),
              omega (arith, none_opened, idle),
            ),
            coe 1 0 (i. All (λ (p : Pending). p.item < next i) found.1)
                (bounded w.next_item callback found.1 left),
          )
    ]

pub wsio_send-Ends :
    (w : Wsio) (state : IoState) (got : Outcomes) (callback : Option ℕ) (uws_ok : Bool)
    (during : List UwsCall)
    → w.io_state ≡ state
    → Fresh w
    → After (SendEnds w callback) (wsio_send w state got callback uws_ok during)
unfolding wsio_send
wsio_send-Ends w io_open got callback uws_ok during e fresh = elim (Bool-cases (got 0 && got 1)) [
  | inr lost ↦ rw lost (refused-Balanced w, fresh)
  | inl had ↦ rw had (elim (Option-cases (on_uws_all (with_item w callback) during)) [
    | inl missing ↦ rw missing _
    | inr (r, there) ↦
        rw there (send_ended-Ends w callback during uws_ok r (ap opening e) fresh there)
  ])
]
wsio_send-Ends w io_not_open got callback uws_ok during e fresh = (refused-Balanced w, fresh)
wsio_send-Ends w io_opening got callback uws_ok during e fresh = (refused-Balanced w, fresh)
wsio_send-Ends w io_closing got callback uws_ok during e fresh = (refused-Balanced w, fresh)
wsio_send-Ends w io_error got callback uws_ok during e fresh = (refused-Balanced w, fresh)
