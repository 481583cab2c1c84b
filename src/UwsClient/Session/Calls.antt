-- ===== src/UwsClient/Session/Calls.antt =====
-- src/uws_client.c: the calls that open and close a client with its list of pending sends, the calls
-- back of the underlying IO, and one step of a session.
use azure_c_shared_utility.Base.{
  ℕ, ◌+◌, ◌/◌, ◌%◌, Bool, true, false, none, some, List, [], ◌∷◌, ◌++◌, if◌then◌else◌, bit_and,
  Bytes, Outcomes, Exec, ◌>>=◌,
}
use azure_c_shared_utility.Buffer.{Status, success, failure}
use azure_c_shared_utility.UwsClient.{
  UwsState, uws_closed, uws_opening_underlying_io, uws_waiting_for_upgrade_response, uws_open,
  uws_closing_waiting_for_close, uws_closing_sending_close, uws_closing_underlying_io, uws_error,
  cannot_close_underlying_io, underlying_io_error, OpenResult, open_multiple_io_opens,
  open_io_error, open_cannot_send_request, open_io_failed, open_io_cancelled, Event, open_completed,
  io_sends, io_opens, io_closes, UwsClient, World, Round, round, encoded, indicate_ws_error,
  indicate_ws_open_complete_error_and_close, indicate_ws_close_complete,
}
use azure_c_shared_utility.UwsClient.Receive.{on_bytes_received}
use azure_c_shared_utility.UwsClient.Session.{
  SendFrameResult, send_frame_error, Session, SessionEvent, Reply, clear_pending_sends, replies,
  refused, handled, tick, in_state, complete_send_frame, complete_all, FrameToSend,
  send_frame_async,
}

-- uws_client_open_async with its callbacks, in the state CLOSED.
unfoldable pub start_opening : Session → (open_ok : Bool) → Reply
start_opening s open_ok =
    let c = record s.client {
      uws_state = if open_ok then uws_opening_underlying_io else uws_closed;
      stream = [];
      fragments = [];
      fragmented_frame_type = 0;
    } in
    replies (record s { callbacks = true }) (if open_ok then success else failure) c (io_opens ∷ [])

unfoldable pub open_async : Session → UwsState → (open_ok : Bool) → Reply
open_async s uws_closed open_ok = start_opening s open_ok
open_async s _ open_ok = refused s

-- uws_client_close_async in another state than CLOSED.
unfoldable pub start_closing : World → Session → (on_close : Bool) → Reply
start_closing w s on_close =
    let c = record s.client {
      on_ws_close_complete = on_close;
      uws_state = uws_closing_underlying_io;
      clock = s.client.clock + 1;
    } in
    if w.close_ok s.client.clock
    then replies s success c (io_closes ∷ [])
    else (let failed = indicate_ws_error c cannot_close_underlying_io false in
        replies s failure failed.client (io_closes ∷ failed.events))

unfoldable pub close_async : World → Session → UwsState → (on_close : Bool) → Reply
close_async w s uws_closed on_close = refused s
close_async w s _ on_close = start_closing w s on_close

-- The result and what was sent.
unfoldable pub send_close_frame :
    World → UwsClient → (close_error_code : ℕ) → Exec (Status × List Event)
send_close_frame w c close_error_code = do
  f ←
      encoded w c.clock 8 (some (close_error_code / 256 % 256 ∷ bit_and close_error_code 0xFF ∷ []))
        2
  some (elim f [
    | none ↦ (failure, [])
    | some bytes ↦ (if w.send_ok c.clock then success else failure, io_sends bytes ∷ [])
  ])

unfoldable pub start_handshake : World → Session → (close_code : ℕ) → (on_close : Bool) → Exec Reply
start_handshake w s close_code on_close = do
  sent ← send_close_frame w s.client close_code
  some (
      replies s sent.0
        (record s.client {
          on_ws_close_complete = on_close;
          uws_state = uws_closing_waiting_for_close;
          clock = s.client.clock + 1;
        })
        sent.1)

unfoldable pub close_handshake_async :
    World → Session → UwsState → (close_code : ℕ) → (on_close : Bool) → Exec Reply
close_handshake_async w s uws_opening_underlying_io close_code on_close =
    start_handshake w s close_code on_close
close_handshake_async w s uws_waiting_for_upgrade_response close_code on_close =
    start_handshake w s close_code on_close
close_handshake_async w s uws_open close_code on_close = start_handshake w s close_code on_close
close_handshake_async w s uws_error close_code on_close = start_handshake w s close_code on_close
close_handshake_async w s _ close_code on_close = some (refused s)

-- What on_underlying_io_open_complete makes of the upgrade request, `IO_OPEN_OK`: its bytes, or why
-- there are none.
pub data Prepared : Type 0 where
  prepared : Bytes → Prepared
  not_prepared : OpenResult → Prepared

pub data IoCall : Type 0 where
  io_open_ok : Prepared → IoCall
  io_open_failed io_open_cancelled : (negative : Bool) → (code : ℕ) → IoCall
  io_bytes_received : Bytes → IoCall
  io_failed io_close_complete : IoCall
  io_close_sent : SendFrameResult → IoCall
  io_send_complete : ℕ → SendFrameResult → IoCall

unfoldable pub send_request : World → UwsClient → Bytes → Round
send_request w c bytes =
    if w.send_ok c.clock
    then round (record c { uws_state = uws_waiting_for_upgrade_response; clock = c.clock + 1 })
        (io_sends bytes ∷ []) false
    else (let failed =
          indicate_ws_open_complete_error_and_close (tick c) open_cannot_send_request in
        round failed.client (io_sends bytes ∷ failed.events) false)

unfoldable pub io_opened : World → UwsClient → Prepared → Round
io_opened w c (not_prepared e) = indicate_ws_open_complete_error_and_close c e
io_opened w c (prepared bytes) = send_request w c bytes

unfoldable pub on_underlying_io_open_complete : World → UwsClient → UwsState → Prepared → Round
on_underlying_io_open_complete w c uws_opening_underlying_io p = io_opened w c p
on_underlying_io_open_complete w c _ p =
    indicate_ws_open_complete_error_and_close c open_multiple_io_opens

-- IO_OPEN_ERROR and the unknown results.
unfoldable pub on_underlying_io_open_failed :
    UwsClient → UwsState → (negative : Bool) → (code : ℕ) → Round
on_underlying_io_open_failed c uws_opening_underlying_io negative code =
    round (in_state c uws_closed) (open_completed (open_io_failed negative code) ∷ []) false
on_underlying_io_open_failed c _ negative code =
    indicate_ws_open_complete_error_and_close c open_multiple_io_opens

-- IO_OPEN_CANCELLED
unfoldable pub on_underlying_io_open_cancelled :
    UwsClient → UwsState → (negative : Bool) → (code : ℕ) → Round
on_underlying_io_open_cancelled c uws_opening_underlying_io negative code =
    indicate_ws_open_complete_error_and_close c (open_io_cancelled negative code)
on_underlying_io_open_cancelled c _ negative code =
    indicate_ws_open_complete_error_and_close c open_multiple_io_opens

-- indicate_ws_close_complete behind a call of xio_close.
unfoldable pub closed_behind : UwsClient → Round
closed_behind c =
    let done = indicate_ws_close_complete c in round done.client (io_closes ∷ done.events) false

unfoldable pub on_underlying_io_error : UwsClient → UwsState → Round
on_underlying_io_error c uws_closing_waiting_for_close = closed_behind c
on_underlying_io_error c uws_closing_sending_close = closed_behind c
on_underlying_io_error c uws_closing_underlying_io = closed_behind c
on_underlying_io_error c uws_opening_underlying_io =
    indicate_ws_open_complete_error_and_close c open_io_error
on_underlying_io_error c uws_waiting_for_upgrade_response =
    indicate_ws_open_complete_error_and_close c open_io_error
on_underlying_io_error c uws_open = indicate_ws_error c underlying_io_error false
on_underlying_io_error c uws_closed = round c [] false
on_underlying_io_error c uws_error = round c [] false

unfoldable pub on_underlying_io_close_complete : UwsClient → UwsState → Round
on_underlying_io_close_complete c uws_closing_underlying_io = indicate_ws_close_complete c
on_underlying_io_close_complete c _ = round c [] false

-- The frame that answers the peer's close frame is sent, or will not be.
unfoldable pub close_io : World → UwsClient → UwsState → Round
close_io w c uws_closing_sending_close =
    if w.close_ok c.clock
    then round (record c { uws_state = uws_closing_underlying_io; clock = c.clock + 1 })
        (io_closes ∷ []) false
    else closed_behind (tick c)
close_io w c _ = round c [] false

unfoldable pub on_underlying_io_close_sent : World → UwsClient → SendFrameResult → Round
on_underlying_io_close_sent w c send_frame_error = round c [] false
on_underlying_io_close_sent w c _ = close_io w c c.uws_state

unfoldable pub on_underlying_io : World → Session → IoCall → Exec Reply
on_underlying_io w s (io_open_ok p) =
    some (handled s (on_underlying_io_open_complete w s.client s.client.uws_state p))
on_underlying_io w s (io_open_failed negative code) =
    some (handled s (on_underlying_io_open_failed s.client s.client.uws_state negative code))
on_underlying_io w s (io_open_cancelled negative code) =
    some (handled s (on_underlying_io_open_cancelled s.client s.client.uws_state negative code))
on_underlying_io w s (io_bytes_received bytes) = do
  r ← on_bytes_received w s.client bytes
  some (replies s success r.0 r.1)
on_underlying_io w s io_failed =
    some (handled s (on_underlying_io_error s.client s.client.uws_state))
on_underlying_io w s io_close_complete =
    some (handled s (on_underlying_io_close_complete s.client s.client.uws_state))
on_underlying_io w s (io_close_sent result) =
    some (handled s (on_underlying_io_close_sent w s.client result))
on_underlying_io w s (io_send_complete item result) = complete_send_frame s item result

pub data SessionCall : Type 0 where
  opens : (open_ok : Bool) → SessionCall
  closes : (on_close : Bool) → SessionCall
  starts_close : (close_code : ℕ) → (on_close : Bool) → SessionCall
  sends_frame : Outcomes → FrameToSend → List (ℕ × SendFrameResult) → SessionCall
  io_calls : IoCall → SessionCall

-- A call of the user or of the IO. The IO makes none before it is opened.
unfoldable pub step : World → Session → SessionCall → Exec Reply
step w s (opens open_ok) = some (open_async s s.client.uws_state open_ok)
step w s (closes on_close) = some (close_async w s s.client.uws_state on_close)
step w s (starts_close close_code on_close) =
    close_handshake_async w s s.client.uws_state close_code on_close
step w s (sends_frame got f during) = send_frame_async w s got f during
step w s (io_calls call) = if s.callbacks then on_underlying_io w s call else none

-- uws_client_destroy: the events from its call of uws_client_close_async on. `during` are the sends
-- that xio_destroy completes.
unfoldable pub close_to_destroy : World → Session → UwsState → Reply
close_to_destroy w s uws_open = close_async w s s.client.uws_state false
close_to_destroy w s uws_error = close_async w s s.client.uws_state false
close_to_destroy w s _ = refused s

unfoldable pub destroy : World → Session → List (ℕ × SendFrameResult) → Exec (List SessionEvent)
destroy w s during = do
  let closed = close_to_destroy w s s.client.uws_state
  r ← complete_all closed.session during
  some (closed.events ++ (r.1 ++ clear_pending_sends r.0.pending_sends))
