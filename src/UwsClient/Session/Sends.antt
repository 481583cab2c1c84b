-- ===== src/UwsClient/Session/Sends.antt =====
-- uws_client_send_frame_async of src/uws_client.c on an open client: what goes to the underlying IO.
use azure_c_shared_utility.Base.{
  ℕ, ◌^◌, ◌<◌, ◌≡◌, ◌∙◌, ap, refl, Bool, true, false, ◌&&◌, Option, none, some, List, [], ◌∷◌, ◌++◌,
  ◌==◌, if◌then◌else◌, All, Bool-cases, inl, inr, Bytes, length, Outcomes, arith,
}
use azure_c_shared_utility.Buffer.{success, failure}
use azure_c_shared_utility.UwsFrameEncoder.Spec.{frame}
use azure_c_shared_utility.UwsClient.{uws_open, io_sends, World}
use azure_c_shared_utility.UwsClient.Encoded.{frame_bytes-encode}
use azure_c_shared_utility.UwsClient.Session.{
  PendingSend, Session, indicated, Reply, refused, take_pending, without_pending, complete_all,
  queue_frame, FrameToSend, encode_frame, is_null_with_size, send_open, send_in_state,
  send_frame_async,
}

-- A frame of the bytes of `payload`.
abbrev pub to_send : ℕ → Bytes → Bool → Option ℕ → FrameToSend
to_send frame_type payload is_final on_complete = record {
  frame_type = frame_type;
  buffer = some payload;
  size = length payload;
  is_final = is_final;
  on_complete = on_complete;
}

take-pending_new :
    (n : ℕ) (callback : Option ℕ) (ps : List PendingSend)
    → All (λ (p : PendingSend). p.item < n) ps
    → take_pending n (ps ++ (record { item = n; callback = callback } ∷ []))
      ≡ some (record { item = n; callback = callback }, ps)
unfolding take_pending
take-pending_new n callback [] old = rw (eq_self n, take_pending) refl
  where
    eq_self : (k : ℕ) → (k == k) ≡ true
    eq_self k = ground arith
take-pending_new n callback (p ∷ ps) old =
    let other : (p.item == n) ≡ false = ground (arith, old.0) in
    rw (other, take_pending, take-pending_new n callback ps old.1) refl

without-pending_new :
    (n : ℕ) (callback : Option ℕ) (ps : List PendingSend)
    → All (λ (p : PendingSend). p.item < n) ps
    → without_pending n (ps ++ (record { item = n; callback = callback } ∷ [])) ≡ ps
unfolding without_pending
without-pending_new n callback ps old =
    rw (take-pending_new n callback ps old, without_pending) refl

-- The memory for the struct, for the frame and for the item of the list.
abbrev pub has_memory : World → Session → Outcomes → Bool
has_memory w s got =
    got 0 && ((w.requests s.client.clock 0 && w.requests s.client.clock 1) && got 1)

-- What the send comes to.
abbrev pub SentReply : World → Session → Outcomes → ℕ → Bytes → Bool → Option ℕ → Reply → Type 0
SentReply w s got frame_type payload is_final callback r =
    let handed = has_memory w s got in
    let sent = handed && w.send_ok s.client.clock in
    (r.status ≡ (if sent then success else failure))
    × (r.session.pending_sends ≡ (
        if sent
        then s.pending_sends ++ (record { item = s.next_item; callback = callback } ∷ [])
        else s.pending_sends))
    × (r.events ≡ (
        if handed
        then indicated (io_sends (frame (w.rand s.client.clock) frame_type payload true is_final 0))
          ∷ []
        else []))
    × (r.session.client.uws_state ≡ s.client.uws_state)

pub frame-encoded :
    (w : World) (clock frame_type : ℕ) (payload : Bytes) (is_final : Bool) (callback : Option ℕ)
    → frame_type < 16
    → length payload < 2 ^ 63
    → encode_frame w clock (to_send frame_type payload is_final callback)
      ≡ some (
          if w.requests clock 0 && w.requests clock 1
          then some (frame (w.rand clock) frame_type payload true is_final 0)
          else none)
unfolding encode_frame
frame-encoded w clock frame_type payload is_final callback known bound =
    frame_bytes-encode w clock frame_type payload is_final known bound

send_open-sends :
    (w : World) (s : Session) (got : Outcomes) (frame_type : ℕ) (payload : Bytes) (is_final : Bool)
    (callback : Option ℕ)
    → All (λ (p : PendingSend). p.item < s.next_item) s.pending_sends
    → frame_type < 16
    → length payload < 2 ^ 63
    → (r : Reply) × (send_open w s got (to_send frame_type payload is_final callback) [] ≡ some r)
      × SentReply w s got frame_type payload is_final callback r
unfolding send_open refused queue_frame complete_all
send_open-sends w s got frame_type payload is_final callback old known bound =
    let made = frame-encoded w s.client.clock frame_type payload is_final callback known bound in
    elim (Bool-cases (got 0)) [
      | inr lost ↦ rw lost (refused s, refl, (refl, refl, refl, refl))
      | inl had ↦ elim (Bool-cases (w.requests s.client.clock 0 && w.requests s.client.clock 1)) [
        | inr lost ↦ rw (had, made, lost) (_, refl, (refl, refl, refl, refl))
        | inl encoded ↦ elim (Bool-cases (got 1)) [
          | inr lost ↦ rw (had, made, encoded, lost) (_, refl, (refl, refl, refl, refl))
          | inl listed ↦ elim (Bool-cases (w.send_ok s.client.clock)) [
            | inl sent ↦ rw (had, made, encoded, listed, sent) (_, refl, (refl, refl, refl, refl))
            | inr fails ↦
                rw (had, made, encoded, listed, fails)
                  (
                    _,
                    refl,
                    (
                      refl,
                      without-pending_new s.next_item callback s.pending_sends old,
                      refl,
                      refl,
                    ),
                  )
          ]
        ]
      ]
    ]

-- uws_client_send_frame_async of a client that is open, of a buffer of fewer than 2^63 bytes and a type
-- that fits four bits, with an xio_send that completes no send before it returns: it returns; if
-- the struct, the frame and the item get their memory, xio_send is called once, with exactly the masked
-- frame of the buffer, and it is not called otherwise. If xio_send succeeds then the result is
-- success and the send is the last one that waits; in all other cases the result is a failure and
-- the sends that wait are those of before. The state of the client stays.
pub send_frame_async-sends :
    (w : World) (s : Session) (got : Outcomes) (frame_type : ℕ) (payload : Bytes) (is_final : Bool)
    (callback : Option ℕ)
    → s.client.uws_state ≡ uws_open
    → All (λ (p : PendingSend). p.item < s.next_item) s.pending_sends
    → frame_type < 16
    → length payload < 2 ^ 63
    → (r : Reply) × (send_frame_async w s got (to_send frame_type payload is_final callback) []
        ≡ some r)
      × SentReply w s got frame_type payload is_final callback r
unfolding send_frame_async is_null_with_size send_in_state
send_frame_async-sends w s got frame_type payload is_final callback at_open old known bound =
    let frame_to_send = to_send frame_type payload is_final callback in
    let (r, e, facts) =
      send_open-sends w s got frame_type payload is_final callback old known bound in
    (r, ap (λ state. send_in_state w s state got frame_to_send []) at_open ∙ e, facts)
