-- ===== src/UwsClient/Session.antt =====
-- src/uws_client.c: the client with its list of pending sends, the calls of its user and those of
-- the underlying IO. An item of pending_sends is its handle, a number that is not used again, and
-- the context of on_ws_send_frame_complete, `none` for a NULL callback. `callbacks` is false while
-- the callbacks of uws_client_open_async are NULL; `none` is then the call of one of them, or the use of
-- an item that is freed. The handlers of a client without the list say when it is cleared, with
-- `pending_sends_cleared`, and `deliver` does so. A call of xio_open, xio_close or xio_send that
-- succeeds may call the client back: these are the next calls, or those that the send names.
pub mod Calls
pub mod Count
pub mod Items
pub mod Balance
pub mod Queued
pub mod Sends
pub mod Runs
pub mod Closes
mod Tests
use azure_c_shared_utility.Base.{
  ℕ, zero, suc, ◌+◌, ◌/◌, ◌%◌, Bool, true, false, not, ◌&&◌, Option, none, some, List, [], ◌∷◌,
  ◌++◌, ltb, ◌==◌, if◌then◌else◌, bit_and, Bytes, Outcomes, Exec, ◌>>=◌,
}
use azure_c_shared_utility.Buffer.{Status, success, failure}
use azure_c_shared_utility.UwsFrameEncoder
use azure_c_shared_utility.UwsClient.{
  UwsState, uws_closed, uws_opening_underlying_io, uws_waiting_for_upgrade_response, uws_open,
  uws_closing_waiting_for_close, uws_closing_sending_close, uws_closing_underlying_io, uws_error,
  cannot_close_underlying_io, underlying_io_error, OpenResult, open_multiple_io_opens,
  open_io_error, open_cannot_send_request, open_io_failed, open_io_cancelled, Event, open_completed,
  io_sends, io_opens, io_closes, pending_sends_cleared, frame_received, error_indicated,
  peer_closed, close_completed, UwsClient, World, Round, round, encoded, frame_bytes,
  indicate_ws_error, indicate_ws_open_complete_error_and_close, indicate_ws_close_complete,
}
use azure_c_shared_utility.UwsClient.Receive.{on_bytes_received}

pub data SendFrameResult : Type 0 where
  send_frame_ok send_frame_error send_frame_cancelled : SendFrameResult

pub record PendingSend : Type 0 where
  pub item : ℕ
  pub callback : Option ℕ

pub record Session : Type 0 where
  pub client : UwsClient
  pub pending_sends : List PendingSend
  pub next_item : ℕ
  pub callbacks : Bool

pub data SessionEvent : Type 0 where
  indicated : Event → SessionEvent
  send_frame_completed : ℕ → SendFrameResult → SessionEvent

pub record Reply : Type 0 where
  pub status : Status
  pub session : Session
  pub events : List SessionEvent

-- The instance of uws_client_create_with_io.
abbrev pub created : Session
created = record {
  client = record {
    uws_state = uws_closed;
    stream = [];
    fragments = [];
    fragmented_frame_type = 0;
    on_ws_close_complete = false;
    clock = 0;
  };
  pending_sends = [];
  next_item = 0;
  callbacks = false;
}

pub frame_completion : Option ℕ → SendFrameResult → List SessionEvent
frame_completion none result = []
frame_completion (some context) result = send_frame_completed context result ∷ []

-- singlylinkedlist_remove: the item and the list without it.
pub take_pending : ℕ → List PendingSend → Option (PendingSend × List PendingSend)
take_pending item [] = none
take_pending item (p ∷ ps) = elim (p.item == item) [
  | true ↦ some (p, ps)
  | false ↦ do found ← take_pending item ps; some (found.0, p ∷ found.1)
]

pub clear_pending_sends : List PendingSend → List SessionEvent
clear_pending_sends [] = []
clear_pending_sends (p ∷ ps) =
    frame_completion p.callback send_frame_cancelled ++ clear_pending_sends ps

-- What a handler of the client did, with the list: the events and the sends that are left.
pub deliver : List PendingSend → List Event → List SessionEvent × List PendingSend
deliver ps [] = ([], ps)
deliver ps (pending_sends_cleared ∷ es) =
    let rest = deliver [] es in (clear_pending_sends ps ++ rest.0, rest.1)
deliver ps (open_completed result ∷ es) =
    let rest = deliver ps es in (indicated (open_completed result) ∷ rest.0, rest.1)
deliver ps (frame_received frame_type bytes ∷ es) =
    let rest = deliver ps es in (indicated (frame_received frame_type bytes) ∷ rest.0, rest.1)
deliver ps (error_indicated error ∷ es) =
    let rest = deliver ps es in (indicated (error_indicated error) ∷ rest.0, rest.1)
deliver ps (peer_closed code extra ∷ es) =
    let rest = deliver ps es in (indicated (peer_closed code extra) ∷ rest.0, rest.1)
deliver ps (io_sends bytes ∷ es) =
    let rest = deliver ps es in (indicated (io_sends bytes) ∷ rest.0, rest.1)
deliver ps (io_opens ∷ es) = let rest = deliver ps es in (indicated io_opens ∷ rest.0, rest.1)
deliver ps (io_closes ∷ es) = let rest = deliver ps es in (indicated io_closes ∷ rest.0, rest.1)
deliver ps (close_completed ∷ es) =
    let rest = deliver ps es in (indicated close_completed ∷ rest.0, rest.1)

pub replies : Session → Status → UwsClient → List Event → Reply
replies s status c events =
    let done = deliver s.pending_sends events in
    record {
      status = status;
      session = record s { client = c; pending_sends = done.1 };
      events = done.0;
    }

pub refused : Session → Reply
refused s = record { status = failure; session = s; events = [] }

abbrev handled : Session → Round → Reply
handled s r = replies s success r.client r.events

abbrev tick : UwsClient → UwsClient
tick c = record c { clock = c.clock + 1 }

abbrev in_state : UwsClient → UwsState → UwsClient
in_state c state = record c { uws_state = state }

pub complete_send_frame : Session → ℕ → SendFrameResult → Exec Reply
complete_send_frame s item result = do
  found ← take_pending item s.pending_sends
  some (record {
    status = success;
    session = record s { pending_sends = found.1 };
    events = frame_completion found.0.callback result;
  })

-- The sends that the underlying IO completes while it is called.
pub complete_all : Session → List (ℕ × SendFrameResult) → Exec (Session × List SessionEvent)
complete_all s [] = some (s, [])
complete_all s (d ∷ ds) = do
  r ← complete_send_frame s d.0 d.1
  rest ← complete_all r.session ds
  some (rest.0, r.events ++ rest.1)

-- singlylinkedlist_find and singlylinkedlist_remove, if the item is still in the list.
pub without_pending : ℕ → List PendingSend → List PendingSend
without_pending item ps = elim (take_pending item ps) [ none ↦ ps | some found ↦ found.1 ]

-- uws_client_send_frame_async from singlylinkedlist_add on.
pub queue_frame : World → Session → Option ℕ → Bytes → List (ℕ × SendFrameResult) → Exec Reply
queue_frame w s callback bytes during = do
  r ←
      complete_all
        (record s {
          client = tick s.client;
          pending_sends =
              s.pending_sends ++ (record { item = s.next_item; callback = callback } ∷ []);
          next_item = s.next_item + 1;
        })
        during
  let sent = indicated (io_sends bytes) ∷ r.1 in
      some (
        if w.send_ok s.client.clock
        then record { status = success; session = r.0; events = sent }
        else record {
          status = failure;
          session = record r.0 { pending_sends = without_pending s.next_item r.0.pending_sends };
          events = sent;
        })

-- What uws_client_send_frame_async is given.
pub record FrameToSend : Type 0 where
  pub frame_type : ℕ
  pub buffer : Option Bytes
  pub size : ℕ
  pub is_final : Bool
  pub on_complete : Option ℕ

pub encode_frame : World → ℕ → FrameToSend → Exec (Option Bytes)
encode_frame w clock f = do
  b ←
      UwsFrameEncoder.encode (w.garbage clock) (w.requests clock) (w.rand clock) f.frame_type
        f.buffer f.size true f.is_final 0
  frame_bytes b

pub is_null_with_size : FrameToSend → Bool
is_null_with_size f = elim (f.buffer) [ none ↦ ltb 0 f.size | some bytes ↦ false ]

-- uws_client_send_frame_async in the state OPEN: the struct, the frame and the item.
pub send_open : World → Session → Outcomes → FrameToSend → List (ℕ × SendFrameResult) → Exec Reply
send_open w s got f during =
    if got 0
    then (do
      frame ← encode_frame w s.client.clock f
      elim frame [
        | none ↦ some (refused (record s { client = tick s.client }))
        | some bytes ↦
            if got 1
            then queue_frame w s f.on_complete bytes during
            else some (refused (record s { client = tick s.client }))
      ])
    else some (refused s)

pub send_in_state :
    World → Session → UwsState → Outcomes → FrameToSend → List (ℕ × SendFrameResult) → Exec Reply
send_in_state w s uws_open got f during = send_open w s got f during
send_in_state w s _ got f during = some (refused s)

pub send_frame_async :
    World → Session → Outcomes → FrameToSend → List (ℕ × SendFrameResult) → Exec Reply
send_frame_async w s got f during =
    if is_null_with_size f
    then some (refused s)
    else send_in_state w s s.client.uws_state got f during
