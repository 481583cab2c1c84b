-- ===== src/Wsio/Items.antt =====
-- The items of pending_io_list in src/wsio.c: what the calls of the WebSocket client keep of them.
use azure_c_shared_utility.Base.{
  ℕ, ◌≡◌, ◌∙◌, refl, Bool, true, false, Option, none, some, List, [], ◌∷◌, ◌++◌, ltb, ◌==◌, All,
  Bool-cases, Option-cases, absurd_none, some-injective, bind-inv, inl, inr, Bytes, Exec, ◌>>=◌,
}
use azure_c_shared_utility.Wsio.{
  IoState, io_not_open, io_opening, io_open, io_closing, io_error, OpenResult, open_ok, open_error,
  open_cancelled, SendResult, Event, Pending, Wsio, Outcome, indicate, indicate_error, take_item,
  complete_send_item, UwsCall, ws_open_complete, ws_frame_received, ws_peer_closed, ws_error,
  ws_close_complete, ws_send_frame_complete, on_ws_open_complete, on_ws_frame_received,
  on_ws_peer_closed, on_ws_error, on_ws_close_complete, on_uws, on_uws_all,
}
use azure_c_shared_utility.Wsio.Invariant.{After}

-- The item that is taken, its handle, and the rest.
pub take_item_lem :
    (P : Pending → Type 0) (item : ℕ) (ps : List Pending) (found : Pending × List Pending)
    → take_item item ps ≡ some found
    → All P ps
    → P found.0 × ((found.0.item == item) ≡ true) × All P found.1
unfolding take_item
take_item_lem P item [] found e known = absurd_none e
take_item_lem P item (p ∷ ps) found e known = elim (Bool-cases (p.item == item)) [
  | inl here ↦
      let same : (p, ps) ≡ found = some-injective (rw (here, take_item) at e) in
      coe 0 1 (i. P (same i).0 × (((same i).0.item == item) ≡ true) × All P (same i).1)
        (known.0, here, known.1)
  | inr there ↦
      let after_head : (take_item item ps >>= λ (f : Pending × List Pending). some (f.0, p ∷ f.1))
          ≡ some found =
        rw (there, take_item) at e in
      let (later, e1, e2) =
        bind-inv (λ (f : Pending × List Pending). some (f.0, p ∷ f.1)) (take_item item ps) found
          after_head in
      let same : (later.0, p ∷ later.1) ≡ found = some-injective e2 in
      let (h1, h2, h3) = take_item_lem P item ps later e1 known.1 in
      coe 0 1 (i. P (same i).0 × (((same i).0.item == item) ≡ true) × All P (same i).1)
        (h1, h2, (known.0, h3))
]

module _ (P : Pending → Type 0) where
  -- No item is added.
  abbrev pub Kept : Wsio → Wsio → Type 0
  Kept w v = (All P w.pending → All P v.pending) × (v.next_item ≡ w.next_item)

  abbrev Keeps : Wsio → Exec Outcome → Type 0
  Keeps w = After (λ o. Kept w o.wsio)

  indicate-Keeps :
      (w : Wsio) (state : IoState) (event : ℕ → Event) → Keeps w (indicate w state event)
  unfolding indicate
  indicate-Keeps w state event = elim (Option-cases w.handlers) [
    | inl missing ↦ rw missing _
    | inr (h, there) ↦ rw there (λ known. known, refl)
  ]

  complete_send_item-Keeps :
      (w : Wsio) (item : ℕ) (result : SendResult) → Keeps w (complete_send_item w item result)
  unfolding complete_send_item
  complete_send_item-Keeps w item result = elim (Option-cases (take_item item w.pending)) [
    | inl missing ↦ rw missing _
    | inr (found, there) ↦
        rw there (λ known. (take_item_lem P item w.pending found there known).2, refl)
  ]

  on_ws_open_complete-Keeps :
      (w : Wsio) (state : IoState) (result : OpenResult)
      → Keeps w (on_ws_open_complete w state result)
  unfolding on_ws_open_complete indicate_error
  on_ws_open_complete-Keeps w io_opening open_ok = indicate-Keeps w _ _
  on_ws_open_complete-Keeps w io_opening open_error = indicate-Keeps w _ _
  on_ws_open_complete-Keeps w io_opening open_cancelled = indicate-Keeps w _ _
  on_ws_open_complete-Keeps w io_not_open result = indicate-Keeps w _ _
  on_ws_open_complete-Keeps w io_open result = indicate-Keeps w _ _
  on_ws_open_complete-Keeps w io_closing result = indicate-Keeps w _ _
  on_ws_open_complete-Keeps w io_error result = indicate-Keeps w _ _

  on_ws_frame_received-Keeps :
      (w : Wsio) (state : IoState) (is_binary : Bool) (buffer : Option Bytes) (size : ℕ)
      → Keeps w (on_ws_frame_received w state is_binary buffer size)
  unfolding on_ws_frame_received indicate_error
  on_ws_frame_received-Keeps w io_open false buffer size = indicate-Keeps w _ _
  on_ws_frame_received-Keeps w io_open true none size = elim (Bool-cases (ltb 0 size)) [
    | inl some_bytes ↦ rw some_bytes (indicate-Keeps w _ _)
    | inr no_bytes ↦ rw no_bytes (λ known. known, refl)
  ]
  on_ws_frame_received-Keeps w io_open true (some bytes) size = elim (Bool-cases (ltb 0 size)) [
    | inl some_bytes ↦ rw some_bytes (indicate-Keeps w _ _)
    | inr no_bytes ↦ rw no_bytes (λ known. known, refl)
  ]
  on_ws_frame_received-Keeps w io_not_open is_binary buffer size = (λ known. known, refl)
  on_ws_frame_received-Keeps w io_opening is_binary buffer size = (λ known. known, refl)
  on_ws_frame_received-Keeps w io_closing is_binary buffer size = (λ known. known, refl)
  on_ws_frame_received-Keeps w io_error is_binary buffer size = (λ known. known, refl)

  on_ws_peer_closed-Keeps : (w : Wsio) (state : IoState) → Keeps w (on_ws_peer_closed w state)
  unfolding on_ws_peer_closed indicate_error
  on_ws_peer_closed-Keeps w io_not_open = indicate-Keeps w _ _
  on_ws_peer_closed-Keeps w io_opening = indicate-Keeps w _ _
  on_ws_peer_closed-Keeps w io_open = indicate-Keeps w _ _
  on_ws_peer_closed-Keeps w io_closing = indicate-Keeps w _ _
  on_ws_peer_closed-Keeps w io_error = indicate-Keeps w _ _

  on_ws_error-Keeps : (w : Wsio) (state : IoState) → Keeps w (on_ws_error w state)
  unfolding on_ws_error
  on_ws_error-Keeps w io_not_open = indicate-Keeps w _ _
  on_ws_error-Keeps w io_opening = indicate-Keeps w _ _
  on_ws_error-Keeps w io_open = indicate-Keeps w _ _
  on_ws_error-Keeps w io_closing = indicate-Keeps w _ _
  on_ws_error-Keeps w io_error = indicate-Keeps w _ _

  on_uws-Keeps : (w : Wsio) (call : UwsCall) → Keeps w (on_uws w call)
  unfolding on_uws on_ws_close_complete
  on_uws-Keeps w (ws_open_complete result) = on_ws_open_complete-Keeps w w.io_state result
  on_uws-Keeps w (ws_frame_received is_binary buffer size) =
      on_ws_frame_received-Keeps w w.io_state is_binary buffer size
  on_uws-Keeps w ws_peer_closed = on_ws_peer_closed-Keeps w w.io_state
  on_uws-Keeps w ws_error = on_ws_error-Keeps w w.io_state
  on_uws-Keeps w ws_close_complete = (λ known. known, refl)
  on_uws-Keeps w (ws_send_frame_complete item result) = complete_send_item-Keeps w item result

  pub on_uws-Kept :
      (w : Wsio) (call : UwsCall) (o : Outcome) → on_uws w call ≡ some o → Kept w o.wsio
  on_uws-Kept w call o e = coe 0 1 (i. Keeps w (e i)) (on_uws-Keeps w call)

  pub on_uws_all-Kept :
      (w : Wsio) (calls : List UwsCall) (r : Wsio × List Event)
      → on_uws_all w calls ≡ some r
      → Kept w r.0
  unfolding on_uws_all
  on_uws_all-Kept w [] r e =
      let same : (w, []) ≡ r = some-injective e in
      coe 0 1 (i. Kept w (same i).0) (λ known. known, refl)
  on_uws_all-Kept w (call ∷ calls) r e =
      let (o, e1, e') = bind-inv _ _ r e in
      let (rest, e2, e3) = bind-inv _ _ r e' in
      let same : (rest.0, o.events ++ rest.1) ≡ r = some-injective e3 in
      let (keep1, next1) = on_uws-Kept w call o e1 in
      let (keep2, next2) = on_uws_all-Kept o.wsio calls rest e2 in
      coe 0 1 (i. Kept w (same i).0) (λ known. keep2 (keep1 known), next2 ∙ next1)
