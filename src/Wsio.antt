-- ===== src/Wsio.antt =====
-- src/wsio.c: the state of a WebSocket IO. An item of `pending_io_list` is its handle, a number that
-- is not used again, and the context of on_send_complete, `none` for a NULL callback. The calls of
-- the user's callbacks are events. `handlers` is the context that wsio_open stored with its three
-- callbacks, `none` while they are NULL; an outer `none` is a call of a NULL callback or the use of
-- an item that is freed. A callback that calls the IO again is not modelled.
--
-- Of src/uws_client.c the calls back come in as `UwsCall`. A call of uws_client_open_async that fails
-- makes none before it returns; one that succeeds may, and they are then the next calls.
-- uws_client_send_frame_async and uws_client_close_async make the calls `during`, whether they fail
-- or not.
pub mod Count
pub mod Invariant
pub mod Items
pub mod Sends
pub mod Steps
pub mod Runs
mod Tests
use azure_c_shared_utility.Base.{
  ℕ, zero, suc, ◌+◌, Bool, true, false, not, ◌&&◌, Option, none, some, List, [], ◌∷◌, ◌++◌, ltb,
  ◌==◌, if◌then◌else◌, Bytes, Outcomes, Exec, ◌>>=◌,
}
use azure_c_shared_utility.Buffer.{Status, success, failure}

pub data IoState : Type 0 where
  io_not_open io_opening io_open io_closing io_error : IoState

pub data OpenResult : Type 0 where
  open_ok open_error open_cancelled : OpenResult

pub data SendResult : Type 0 where
  send_ok send_error send_cancelled : SendResult

pub data Event : Type 0 where
  open_completed : ℕ → OpenResult → Event
  received : ℕ → Bytes → Event
  error_indicated : ℕ → Event
  send_completed : ℕ → SendResult → Event
  close_completed : ℕ → Event

pub record Pending : Type 0 where
  pub item : ℕ
  pub callback : Option ℕ

pub record Wsio : Type 0 where
  pub io_state : IoState
  pub handlers : Option ℕ
  pub on_close : Option ℕ
  pub pending : List Pending
  pub next_item : ℕ

pub record Outcome : Type 0 where
  pub status : Status
  pub wsio : Wsio
  pub events : List Event

abbrev pub done : Wsio → List Event → Exec Outcome
done w events = some (record { status = success; wsio = w; events = events })

abbrev pub refused : Wsio → Exec Outcome
refused w = some (record { status = failure; wsio = w; events = [] })

-- The instance of wsio_create.
abbrev pub created : Wsio
created = record {
  io_state = io_not_open;
  handlers = none;
  on_close = none;
  pending = [];
  next_item = 0;
}

-- wsio_create: the configuration is whole, the instance is had, uws_client_create_with_io
-- succeeds and the list is had.
unfoldable pub create : (whole : Bool) → Outcomes → Option Wsio
create whole got = if whole && (got 0 && (got 1 && got 2)) then some created else none

-- A callback of wsio_open is called, and the new state.
pub indicate : Wsio → IoState → (ℕ → Event) → Exec Outcome
indicate w state event = do h ← w.handlers; done (record w { io_state = state }) (event h ∷ [])

unfoldable pub indicate_error : Wsio → Exec Outcome
indicate_error w = indicate w io_error error_indicated

pub completion : Option ℕ → SendResult → List Event
completion none result = []
completion (some context) result = send_completed context result ∷ []

-- singlylinkedlist_remove: the item and the list without it.
pub take_item : ℕ → List Pending → Option (Pending × List Pending)
take_item item [] = none
take_item item (p ∷ ps) = elim (p.item == item) [
  | true ↦ some (p, ps)
  | false ↦ do found ← take_item item ps; some (found.0, p ∷ found.1)
]

pub complete_send_item : Wsio → ℕ → SendResult → Exec Outcome
complete_send_item w item result = do
  found ← take_item item w.pending
  done (record w { pending = found.1 }) (completion found.0.callback result)

-- What the WebSocket client reports; WS_OPEN_OK and WS_OPEN_CANCELLED are told from the others.
pub data UwsCall : Type 0 where
  ws_open_complete : OpenResult → UwsCall
  ws_frame_received : (is_binary : Bool) → Option Bytes → (size : ℕ) → UwsCall
  ws_peer_closed ws_error ws_close_complete : UwsCall
  ws_send_frame_complete : ℕ → SendResult → UwsCall

pub on_ws_open_complete : Wsio → IoState → OpenResult → Exec Outcome
on_ws_open_complete w io_opening open_ok = indicate w io_open (λ h. open_completed h open_ok)
on_ws_open_complete w io_opening open_cancelled =
    indicate w io_not_open (λ h. open_completed h open_cancelled)
on_ws_open_complete w io_opening open_error =
    indicate w io_not_open (λ h. open_completed h open_error)
on_ws_open_complete w _ result = indicate_error w

pub on_ws_frame_received : Wsio → IoState → Bool → Option Bytes → ℕ → Exec Outcome
on_ws_frame_received w io_open false buffer size = indicate_error w
on_ws_frame_received w io_open true none size = if ltb 0 size then indicate_error w else done w []
on_ws_frame_received w io_open true (some bytes) size =
    if ltb 0 size then indicate w io_open (λ h. received h bytes) else done w []
on_ws_frame_received w _ is_binary buffer size = done w []

pub on_ws_peer_closed : Wsio → IoState → Exec Outcome
on_ws_peer_closed w io_not_open = indicate w io_not_open error_indicated
on_ws_peer_closed w io_opening = indicate w io_not_open (λ h. open_completed h open_error)
on_ws_peer_closed w _ = indicate_error w

pub on_ws_error : Wsio → IoState → Exec Outcome
on_ws_error w io_opening = indicate w io_not_open (λ h. open_completed h open_error)
on_ws_error w state = indicate w state error_indicated

pub close_event : Option ℕ → List Event
close_event none = []
close_event (some context) = close_completed context ∷ []

unfoldable pub on_ws_close_complete : Wsio → Exec Outcome
on_ws_close_complete w = done (record w { io_state = io_not_open }) (close_event w.on_close)

pub on_uws : Wsio → UwsCall → Exec Outcome
on_uws w (ws_open_complete result) = on_ws_open_complete w w.io_state result
on_uws w (ws_frame_received is_binary buffer size) =
    on_ws_frame_received w w.io_state is_binary buffer size
on_uws w ws_peer_closed = on_ws_peer_closed w w.io_state
on_uws w ws_error = on_ws_error w w.io_state
on_uws w ws_close_complete = on_ws_close_complete w
on_uws w (ws_send_frame_complete item result) = complete_send_item w item result

pub on_uws_all : Wsio → List UwsCall → Exec (Wsio × List Event)
on_uws_all w [] = some (w, [])
on_uws_all w (c ∷ cs) = do
  o ← on_uws w c
  rest ← on_uws_all o.wsio cs
  some (rest.0, o.events ++ rest.1)

-- The loop of internal_close over the items that are left.
pub cancellations : List Pending → List Event
cancellations [] = []
cancellations (p ∷ ps) = completion p.callback send_cancelled ++ cancellations ps

-- internal_close in the states open and error, from uws_client_close_async on.
pub close_open : Wsio → (uws_ok : Bool) → List UwsCall → Exec Outcome
close_open w uws_ok during = do
  r ← on_uws_all w during
  done (record r.0 { io_state = io_not_open; pending = [] })
      (r.1 ++ ((if uws_ok then [] else close_event r.0.on_close) ++ cancellations r.0.pending))

pub internal_close : Wsio → IoState → Option ℕ → (uws_ok : Bool) → List UwsCall → Exec Outcome
internal_close w io_not_open on_close uws_ok during = refused w
internal_close w io_opening on_close uws_ok during =
    indicate w io_not_open (λ h. open_completed h open_cancelled)
internal_close w io_closing on_close uws_ok during = refused w
internal_close w _ on_close uws_ok during =
    close_open (record w { io_state = io_closing; on_close = on_close }) uws_ok during

-- wsio_open with its callbacks, in the state `not_open`.
pub start_open : Wsio → ℕ → (uws_ok : Bool) → Exec Outcome
start_open w context true = done (record w { io_state = io_opening; handlers = some context }) []
start_open w context false = refused (record w { handlers = some context })

pub wsio_open : Wsio → IoState → ℕ → (uws_ok : Bool) → Exec Outcome
wsio_open w io_not_open context uws_ok = start_open w context uws_ok
wsio_open w _ context uws_ok = refused w

-- The end of wsio_send: the item of a send that failed is taken out of the list and freed.
pub send_ended : ℕ → (uws_ok : Bool) → Wsio × List Event → Exec Outcome
send_ended item true r = done r.0 r.1
send_ended item false r = do
  found ← take_item item r.0.pending
  some (record { status = failure; wsio = record r.0 { pending = found.1 }; events = r.1 })

-- The IO with the item of a send.
abbrev pub with_item : Wsio → Option ℕ → Wsio
with_item w callback = record w {
  pending = w.pending ++ (record { item = w.next_item; callback = callback } ∷ []);
  next_item = w.next_item + 1;
}

-- wsio_send of a buffer that is not empty.
pub wsio_send : Wsio → IoState → Outcomes → Option ℕ → (uws_ok : Bool) → List UwsCall → Exec Outcome
wsio_send w io_open got callback uws_ok during =
    if got 0 && got 1
    then (do r ← on_uws_all (with_item w callback) during; send_ended w.next_item uws_ok r)
    else refused w
wsio_send w _ got callback uws_ok during = refused w

pub data Call : Type 0 where
  opens : ℕ → (uws_ok : Bool) → Call
  closes : Option ℕ → (uws_ok : Bool) → List UwsCall → Call
  sends : Outcomes → Option ℕ → (uws_ok : Bool) → List UwsCall → Call
  uws : UwsCall → Call

pub step : Wsio → Call → Exec Outcome
step w (opens context uws_ok) = wsio_open w w.io_state context uws_ok
step w (closes on_close uws_ok during) = internal_close w w.io_state on_close uws_ok during
step w (sends got callback uws_ok during) = wsio_send w w.io_state got callback uws_ok during
step w (uws call) = on_uws w call
