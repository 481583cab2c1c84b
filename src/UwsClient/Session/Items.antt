-- ===== src/UwsClient/Session/Items.antt =====
-- The items of pending_sends in src/uws_client.c: what the calls that complete sends keep of them.
use azure_c_shared_utility.Base.{
  ℕ, ◌+◌, ◌≤◌, ◌≡◌, ◌∙◌, ap, refl, true, Option, some, List, [], ◌∷◌, ◌==◌, All, Bool-cases,
  Option-cases, absurd_none, some-injective, bind-inv, inl, inr, ◌>>=◌, arith,
}
use azure_c_shared_utility.UwsClient.{
  Event, open_completed, frame_received, error_indicated, peer_closed, io_sends, io_opens,
  io_closes, pending_sends_cleared, close_completed,
}
use azure_c_shared_utility.UwsClient.Session.{
  SendFrameResult, PendingSend, Session, SessionEvent, Reply, take_pending, deliver,
  complete_send_frame, complete_all, without_pending,
}
use azure_c_shared_utility.UwsClient.Session.Count.{
  times, due, completed, completed-append, completed-frame_completion,
}

-- The item that is taken, its number and the count of the rest.
pub take_pending_lem :
    (P : PendingSend → Type 0) (item : ℕ) (ps : List PendingSend)
    (found : PendingSend × List PendingSend)
    → take_pending item ps ≡ some found
    → All P ps
    → P found.0
      × ((found.0.item == item) ≡ true)
      × All P found.1
      × ((c : ℕ) → due c ps ≡ times c found.0.callback + due c found.1)
unfolding take_pending
take_pending_lem P item [] found e known = absurd_none e
take_pending_lem P item (p ∷ ps) found e known = elim (Bool-cases (p.item == item)) [
  | inl here ↦
      let same : (p, ps) ≡ found = some-injective (rw (here, take_pending) at e) in
      coe 0 1
        (i.
          P (same i).0
          × (((same i).0.item == item) ≡ true)
          × All P (same i).1
          × ((c : ℕ) → due c (p ∷ ps) ≡ times c (same i).0.callback + due c (same i).1))
        (known.0, here, known.1, λ c. refl)
  | inr there ↦
      let after_head : (take_pending item ps >>= λ (f : PendingSend × List PendingSend).
      some (f.0, p ∷ f.1))
          ≡ some found =
        rw (there, take_pending) at e in
      let (later, e1, e2) =
        bind-inv (λ (f : PendingSend × List PendingSend). some (f.0, p ∷ f.1))
          (take_pending item ps) found after_head in
      let same : (later.0, p ∷ later.1) ≡ found = some-injective e2 in
      let (h1, h2, h3, h4) = take_pending_lem P item ps later e1 known.1 in
      coe 0 1
        (i.
          P (same i).0
          × (((same i).0.item == item) ≡ true)
          × All P (same i).1
          × ((c : ℕ) → due c (p ∷ ps) ≡ times c (same i).0.callback + due c (same i).1))
        (h1, h2, (known.0, h3), λ c. omega (arith, h4 c))
]

pub deliver-All :
    (P : PendingSend → Type 0) (ps : List PendingSend) (es : List Event)
    → All P ps
    → All P (deliver ps es).1
unfolding deliver
deliver-All P ps [] known = known
deliver-All P ps (pending_sends_cleared ∷ es) known = deliver-All P [] es _
deliver-All P ps (open_completed result ∷ es) known = deliver-All P ps es known
deliver-All P ps (frame_received frame_type bytes ∷ es) known = deliver-All P ps es known
deliver-All P ps (error_indicated error ∷ es) known = deliver-All P ps es known
deliver-All P ps (peer_closed code extra ∷ es) known = deliver-All P ps es known
deliver-All P ps (io_sends bytes ∷ es) known = deliver-All P ps es known
deliver-All P ps (io_opens ∷ es) known = deliver-All P ps es known
deliver-All P ps (io_closes ∷ es) known = deliver-All P ps es known
deliver-All P ps (close_completed ∷ es) known = deliver-All P ps es known

pub complete_send_frame-inv :
    (P : PendingSend → Type 0) (s : Session) (item : ℕ) (result : SendFrameResult) (r : Reply)
    → complete_send_frame s item result ≡ some r
    → All P s.pending_sends
    → All P r.session.pending_sends
      × (r.session.next_item ≡ s.next_item)
      × ((c : ℕ) → due c s.pending_sends ≡ completed c r.events + due c r.session.pending_sends)
unfolding complete_send_frame
complete_send_frame-inv P s item result r e known =
    let (found, e1, e2) = bind-inv _ (take_pending item s.pending_sends) r e in
    let (h1, h2, h3, h4) = take_pending_lem P item s.pending_sends found e1 known in
    coe 0 1
      (i.
        All P (some-injective e2 i).session.pending_sends
        × ((some-injective e2 i).session.next_item ≡ s.next_item)
        × ((c : ℕ)
            → due c s.pending_sends
              ≡ completed c (some-injective e2 i).events
                + due c (some-injective e2 i).session.pending_sends))
      (h3, refl, λ c. omega (arith, h4 c, completed-frame_completion c found.0.callback result))

pub complete_all-inv :
    (P : PendingSend → Type 0) (s : Session) (ds : List (ℕ × SendFrameResult))
    (r : Session × List SessionEvent)
    → complete_all s ds ≡ some r
    → All P s.pending_sends
    → All P r.0.pending_sends
      × (r.0.next_item ≡ s.next_item)
      × ((c : ℕ) → due c s.pending_sends ≡ completed c r.1 + due c r.0.pending_sends)
unfolding complete_all
complete_all-inv P s [] r e known =
    coe 0 1
      (i.
        All P (some-injective e i).0.pending_sends
        × ((some-injective e i).0.next_item ≡ s.next_item)
        × ((c : ℕ)
            → due c s.pending_sends
              ≡ completed c (some-injective e i).1 + due c (some-injective e i).0.pending_sends))
      (known, refl, λ c. omega arith)
complete_all-inv P s (d ∷ ds) r e known =
    let (first, e1, e') = bind-inv _ (complete_send_frame s d.0 d.1) r e in
    let (rest, e2, e3) = bind-inv _ (complete_all first.session ds) r e' in
    let (h1, h2, h3) = complete_send_frame-inv P s d.0 d.1 first e1 known in
    let (k1, k2, k3) = complete_all-inv P first.session ds rest e2 h1 in
    coe 0 1
      (i.
        All P (some-injective e3 i).0.pending_sends
        × ((some-injective e3 i).0.next_item ≡ s.next_item)
        × ((c : ℕ)
            → due c s.pending_sends
              ≡ completed c (some-injective e3 i).1 + due c (some-injective e3 i).0.pending_sends))
      (k1, k2 ∙ h2, λ c. omega (arith, h3 c, k3 c, completed-append c first.events rest.1))

-- What is left when an item whose callback is known is taken out.
pub without_pending-due :
    (P : PendingSend → Type 0) (item : ℕ) (callback : Option ℕ) (ps : List PendingSend)
    → ((p : PendingSend) → P p → (p.item == item) ≡ true → p.callback ≡ callback)
    → All P ps
    → All P (without_pending item ps)
      × ((c : ℕ)
          → (due c (without_pending item ps) ≤ due c ps)
            × (due c ps ≤ due c (without_pending item ps) + times c callback))
unfolding without_pending
without_pending-due P item callback ps named known = elim (Option-cases (take_pending item ps)) [
  | inl missing ↦ rw (missing, without_pending) (known, λ c. (omega arith, omega arith))
  | inr (found, there) ↦
      let (h1, h2, h3, h4) = take_pending_lem P item ps found there known in
      rw (there, without_pending)
        (h3, λ c. (omega (arith, h4 c), omega (arith, h4 c, ap (times c) (named found.0 h1 h2))))
]
