-- ===== src/UwsClient/Total.antt =====
-- The switch over the opcode in src/uws_client.c, on any frame.
use azure_c_shared_utility.Base.{
  ℕ, ◌^◌, ◌<◌, ◌≡◌, ◌∙◌, refl, Bool, true, false, none, some, [], ◌==◌, if◌then◌else◌, Bytes,
  length, Exec, ◌>>=◌, arith,
}
use azure_c_shared_utility.UwsClient.{
  UwsState, uws_closed, uws_opening_underlying_io, uws_waiting_for_upgrade_response, uws_open,
  uws_closing_waiting_for_close, uws_closing_sending_close, uws_closing_underlying_io, uws_error,
  UwsClient, World, encoded, process_frame_fragment, continuation_frame, data_frame,
}
use azure_c_shared_utility.UwsClient.Blocks.{process_frame_fragment_lem}
use azure_c_shared_utility.UwsClient.Receive.{
  extra_data, reason_is_valid, peer_closes, close_checked, close_frame, ping_frame, process_frame,
}
use azure_c_shared_utility.UwsClient.Encoded.{encoded_total, encoded-none}

-- There is a result.
abbrev pub Returns : {A : Type 0} → Exec A → Type 0
Returns {A} r = (x : A) × (r ≡ some x)

pub if_Returns :
    {A : Type 0} (b : Bool) (x y : Exec A) → Returns x → Returns y → Returns (if b then x else y)
if_Returns true x y rx ry = rx
if_Returns false x y rx ry = ry

pub bind-Returns :
    {A B : Type 0} (r : Exec A) (f : A → Exec B)
    → Returns r
    → ((x : A) → Returns (f x))
    → Returns (r >>= f)
bind-Returns r f (x, e) after = rw e (after x)

pub peer_closes-Returns :
    (w : World) (c : UwsClient) (payload : Bytes) → Returns (peer_closes w c payload)
unfolding peer_closes
peer_closes-Returns w c payload =
    let (o, e) = encoded_total w c.clock 8 [] (omega arith) (omega arith) in
    bind-Returns (encoded w c.clock 8 none 0) _ (o, encoded-none w c.clock 8 ∙ e) (λ f. (_, refl))

pub close_checked-Returns :
    (w : World) (c : UwsClient) (s : UwsState) (payload : Bytes)
    → Returns (close_checked w c s payload)
unfolding close_checked
close_checked-Returns w c uws_closing_waiting_for_close payload = (_, refl)
close_checked-Returns w c uws_open payload = peer_closes-Returns w c payload
close_checked-Returns w c uws_closed payload = peer_closes-Returns w c payload
close_checked-Returns w c uws_opening_underlying_io payload = peer_closes-Returns w c payload
close_checked-Returns w c uws_waiting_for_upgrade_response payload = peer_closes-Returns w c payload
close_checked-Returns w c uws_closing_sending_close payload = peer_closes-Returns w c payload
close_checked-Returns w c uws_closing_underlying_io payload = peer_closes-Returns w c payload
close_checked-Returns w c uws_error payload = peer_closes-Returns w c payload

pub close_frame-Returns :
    (w : World) (c : UwsClient) (is_final : Bool) (payload : Bytes)
    → Returns (close_frame w c is_final payload)
unfolding close_frame
close_frame-Returns w c false payload = (_, refl)
close_frame-Returns w c true payload =
    if_Returns (reason_is_valid (extra_data payload)) _ _
      (close_checked-Returns w c c.uws_state payload) (_, refl)

pub ping_frame-Returns :
    (w : World) (c : UwsClient) (is_final : Bool) (payload : Bytes)
    → length payload < 2 ^ 63
    → Returns (ping_frame w c is_final payload)
unfolding ping_frame
ping_frame-Returns w c false payload bound = (_, refl)
ping_frame-Returns w c true payload bound =
    bind-Returns (encoded w c.clock 10 (some payload) (length payload)) _
      (encoded_total w c.clock 10 payload (omega arith) bound) (λ f. (_, refl))

-- The fragment buffer holds what is copied to it.
continuation_frame-Returns :
    (w : World) (c : UwsClient) (is_final : Bool) (payload : Bytes)
    → Returns (continuation_frame w c is_final payload)
unfolding continuation_frame
continuation_frame-Returns w c is_final payload =
    bind-Returns (process_frame_fragment w c payload) _ (_, process_frame_fragment_lem w c payload)
      (λ f. (_, refl))

data_frame-Returns :
    (w : World) (c : UwsClient) (frame_type : ℕ) (is_final : Bool) (payload : Bytes)
    → Returns (data_frame w c frame_type is_final payload)
unfolding data_frame
data_frame-Returns w c frame_type true payload = (_, refl)
data_frame-Returns w c frame_type false payload =
    if_Returns (c.fragmented_frame_type == 0) _ _
      (bind-Returns (process_frame_fragment w c payload) _
        (_, process_frame_fragment_lem w c payload) (λ f. (_, refl)))
      (_, refl)

pub process_frame-Returns :
    (w : World) (c : UwsClient) (opcode : ℕ) (is_final : Bool) (payload : Bytes)
    → length payload < 2 ^ 63
    → Returns (process_frame w c opcode is_final payload)
unfolding process_frame
process_frame-Returns w c opcode is_final payload bound =
    if_Returns (opcode == 0) _ _ (continuation_frame-Returns w c is_final payload) (
      if_Returns (opcode == 1) _ _ (data_frame-Returns w c 1 is_final payload) (
        if_Returns (opcode == 2) _ _ (data_frame-Returns w c 2 is_final payload) (
          if_Returns (opcode == 8) _ _ (close_frame-Returns w c is_final payload) (
            if_Returns (opcode == 9) _ _ (ping_frame-Returns w c is_final payload bound)
              (_, refl)))))
