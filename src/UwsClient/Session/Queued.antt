-- ===== src/UwsClient/Session/Queued.antt =====
-- uws_client_send_frame_async of src/uws_client.c, and any step of a session.
use azure_c_shared_utility.Base.{
  ℕ, ◌+◌, ◌<◌, ◌≡◌, refl, true, Option, none, some, List, [], ◌∷◌, ◌++◌, ◌==◌, All, All-append,
  Bool-cases, Option-cases, inl, inr, ◌⊎◌, Bytes, Outcomes, arith,
}
use azure_c_shared_utility.Buffer.{Status, success, failure}
use azure_c_shared_utility.UwsClient.{
  UwsState, uws_closed, uws_opening_underlying_io, uws_waiting_for_upgrade_response, uws_open,
  uws_closing_waiting_for_close, uws_closing_sending_close, uws_closing_underlying_io, uws_error,
  World,
}
use azure_c_shared_utility.UwsClient.Session.{
  SendFrameResult, PendingSend, Session, refused, tick, complete_all, without_pending, queue_frame,
  FrameToSend, encode_frame, is_null_with_size, send_open, send_in_state, send_frame_async,
}
use azure_c_shared_utility.UwsClient.Session.Calls.{
  SessionCall, opens, closes, starts_close, sends_frame, io_calls, step,
}
use azure_c_shared_utility.UwsClient.Session.Count.{times, due, completed, due-append}
use azure_c_shared_utility.UwsClient.Session.Items.{complete_all-inv, without_pending-due}
use azure_c_shared_utility.UwsClient.Session.Balance.{
  After, Bounded, Balanced, refused-Balanced, open_async-Balanced, close_async-Balanced,
  close_handshake_async-Balanced, on_underlying_io-Balanced,
}

-- What a send accepts.
abbrev pub taken : Status → Option ℕ → ℕ → ℕ
taken success callback c = times c callback
taken failure callback c = 0

-- An item behind a send: an old one, or the new one with its callback.
abbrev OldOrNew : ℕ → Option ℕ → PendingSend → Type 0
OldOrNew n callback p = (p.item < n) ⊎ ((p.item ≡ n) × (p.callback ≡ callback))

All-map :
    {A : Type 0} (P Q : A → Type 0) → ((x : A) → P x → Q x) → (xs : List A) → All P xs → All Q xs
All-map P Q f [] h = _
All-map P Q f (x ∷ xs) h = (f x h.0, All-map P Q f xs h.1)

bounded :
    (n : ℕ) (callback : Option ℕ) (ps : List PendingSend)
    → All (OldOrNew n callback) ps
    → All (λ (p : PendingSend). p.item < n + 1) ps
bounded n callback ps = All-map (OldOrNew n callback) (λ (p : PendingSend). p.item < n + 1) below ps
  where
    below : (p : PendingSend) → OldOrNew n callback p → p.item < n + 1
    below p (inl old) = omega arith
    below p (inr (new, named)) = omega arith

named_new :
    (n : ℕ) (callback : Option ℕ) (p : PendingSend)
    → OldOrNew n callback p
    → (p.item == n) ≡ true
    → p.callback ≡ callback
named_new n callback p (inl old) e = absurd (ground arith)
named_new n callback p (inr (new, named)) e = named

-- The session once the item is in the list.
abbrev queued : Session → Option ℕ → Session
queued s callback = record s {
  client = tick s.client;
  pending_sends = s.pending_sends ++ (record { item = s.next_item; callback = callback } ∷ []);
  next_item = s.next_item + 1;
}

queued-All :
    (s : Session) (callback : Option ℕ)
    → Bounded s
    → All (OldOrNew s.next_item callback) (queued s callback).pending_sends
queued-All s callback old =
    All-append (OldOrNew s.next_item callback) s.pending_sends _
      (All-map (λ (p : PendingSend). p.item < s.next_item) (OldOrNew s.next_item callback)
        (λ p h. inl h) s.pending_sends old)
      (inr (refl, refl), _)

queue_frame-Balanced :
    (w : World) (s : Session) (callback : Option ℕ) (bytes : Bytes)
    (during : List (ℕ × SendFrameResult))
    → Bounded s
    → After
        (λ r. Balanced s (taken r.status callback) (λ c. times c callback) r)
        (queue_frame w s callback bytes during)
unfolding queue_frame
queue_frame-Balanced w s callback bytes during old =
    elim (Option-cases (complete_all (queued s callback) during)) [
      | inl missing ↦ rw missing _
      | inr (r, there) ↦
          let (known, next, count) =
            complete_all-inv (OldOrNew s.next_item callback) (queued s callback) during r there
              (queued-All s callback old) in
          let more : (c : ℕ)
              → due c s.pending_sends + times c callback
                ≡ completed c r.1 + due c r.0.pending_sends =
            λ c. omega (
              arith,
              count c,
              due-append c s.pending_sends
                  (record { item = s.next_item; callback = callback } ∷ []),
            ) in
          let (kept, left) =
            without_pending-due (OldOrNew s.next_item callback) s.next_item callback
              r.0.pending_sends (named_new s.next_item callback) known in
          rw there (elim (Bool-cases (w.send_ok s.client.clock)) [
            | inl sent ↦ rw sent (
              coe 1 0 (i. All (λ (p : PendingSend). p.item < next i) r.0.pending_sends)
                  (bounded s.next_item callback r.0.pending_sends known),
              λ c. (omega (arith, more c), omega (arith, more c)),
            )
            | inr fails ↦ rw fails (
              coe 1 0
                  (i.
                    All (λ (p : PendingSend). p.item < next i)
                      (without_pending s.next_item r.0.pending_sends))
                  (bounded s.next_item callback (without_pending s.next_item r.0.pending_sends)
                    kept),
              λ c. (omega (arith, more c, (left c).1), omega (arith, more c, (left c).0)),
            )
          ])
    ]

send_open-Balanced :
    (w : World) (s : Session) (got : Outcomes) (f : FrameToSend)
    (during : List (ℕ × SendFrameResult))
    → Bounded s
    → After
        (λ r. Balanced s (taken r.status f.on_complete) (λ c. times c f.on_complete) r)
        (send_open w s got f during)
unfolding send_open refused
send_open-Balanced w s got f during old = elim (Bool-cases (got 0)) [
  | inr lost ↦ rw lost (refused-Balanced s _ old)
  | inl had ↦ rw had (elim (Option-cases (encode_frame w s.client.clock f)) [
    | inl missing ↦ rw missing _
    | inr (none, there) ↦ rw there (refused-Balanced s _ old)
    | inr (some bytes, there) ↦ rw there (elim (Bool-cases (got 1)) [
      | inl listed ↦ rw listed (queue_frame-Balanced w s f.on_complete bytes during old)
      | inr unlisted ↦ rw unlisted (refused-Balanced s _ old)
    ])
  ])
]

send_in_state-Balanced :
    (w : World) (s : Session) (state : UwsState) (got : Outcomes) (f : FrameToSend)
    (during : List (ℕ × SendFrameResult))
    → Bounded s
    → After
        (λ r. Balanced s (taken r.status f.on_complete) (λ c. times c f.on_complete) r)
        (send_in_state w s state got f during)
unfolding send_in_state refused
send_in_state-Balanced w s uws_open got f during old = send_open-Balanced w s got f during old
send_in_state-Balanced w s uws_closed got f during old = refused-Balanced s _ old
send_in_state-Balanced w s uws_opening_underlying_io got f during old = refused-Balanced s _ old
send_in_state-Balanced w s uws_waiting_for_upgrade_response got f during old =
    refused-Balanced s _ old
send_in_state-Balanced w s uws_closing_waiting_for_close got f during old = refused-Balanced s _ old
send_in_state-Balanced w s uws_closing_sending_close got f during old = refused-Balanced s _ old
send_in_state-Balanced w s uws_closing_underlying_io got f during old = refused-Balanced s _ old
send_in_state-Balanced w s uws_error got f during old = refused-Balanced s _ old

send_frame_async-Balanced :
    (w : World) (s : Session) (got : Outcomes) (f : FrameToSend)
    (during : List (ℕ × SendFrameResult))
    → Bounded s
    → After
        (λ r. Balanced s (taken r.status f.on_complete) (λ c. times c f.on_complete) r)
        (send_frame_async w s got f during)
unfolding send_frame_async refused
send_frame_async-Balanced w s got f during old = elim (Bool-cases (is_null_with_size f)) [
  | inl bad ↦ rw bad (refused-Balanced s _ old)
  | inr fine ↦ rw fine (send_in_state-Balanced w s s.client.uws_state got f during old)
]

-- The frames that a call accepts, by the context of their callback, and those it asks for.
abbrev pub accepted_frames : SessionCall → Status → ℕ → ℕ
accepted_frames (sends_frame got f during) status c = taken status f.on_complete c
accepted_frames _ status c = 0

abbrev pub asked_frames : SessionCall → ℕ → ℕ
asked_frames (sends_frame got f during) c = times c f.on_complete
asked_frames _ c = 0

pub step-Balanced :
    (w : World) (s : Session) (call : SessionCall)
    → Bounded s
    → After (λ r. Balanced s (accepted_frames call r.status) (asked_frames call) r) (step w s call)
unfolding step
step-Balanced w s (opens open_ok) old = open_async-Balanced s s.client.uws_state open_ok old
step-Balanced w s (closes on_close) old = close_async-Balanced w s s.client.uws_state on_close old
step-Balanced w s (starts_close close_code on_close) old =
    close_handshake_async-Balanced w s s.client.uws_state close_code on_close old
step-Balanced w s (sends_frame got f during) old = send_frame_async-Balanced w s got f during old
step-Balanced w s (io_calls call) old = elim (Bool-cases s.callbacks) [
  | inl there ↦ rw there (on_underlying_io-Balanced w (record s { callbacks = true }) call old)
  | inr missing ↦ rw missing _
]
