-- ===== src/UwsClient/Session/Balance.antt =====
-- What one step of a session of src/uws_client.c does to the frames that wait to be sent.
use azure_c_shared_utility.Base.{
  ℕ, ◌+◌, ◌≤◌, ◌<◌, ◌≡◌, refl, Bool, true, none, some, List, All, Bool-cases, Option-cases, inl,
  inr, Exec, arith,
}
use azure_c_shared_utility.Buffer.{Status}
use azure_c_shared_utility.UwsClient.{
  UwsState, uws_closed, uws_opening_underlying_io, uws_waiting_for_upgrade_response, uws_open,
  uws_closing_waiting_for_close, uws_closing_sending_close, uws_closing_underlying_io, uws_error,
  Event, UwsClient, World,
}
use azure_c_shared_utility.UwsClient.Receive.{on_bytes_received}
use azure_c_shared_utility.UwsClient.Session.{
  PendingSend, Session, Reply, replies, refused, complete_send_frame,
}
use azure_c_shared_utility.UwsClient.Session.Calls.{
  start_opening, open_async, start_closing, close_async, send_close_frame, start_handshake,
  close_handshake_async, IoCall, io_open_ok, io_open_failed, io_open_cancelled, io_bytes_received,
  io_failed, io_close_complete, io_close_sent, io_send_complete, on_underlying_io,
}
use azure_c_shared_utility.UwsClient.Session.Count.{due, completed, deliver-due}
use azure_c_shared_utility.UwsClient.Session.Items.{deliver-All, complete_send_frame-inv}

-- What holds of the result, if there is one.
abbrev pub After : {A : Type 0} → (A → Type 0) → Exec A → Type 0
After P none = Unit
After P (some x) = P x

pub After-inv :
    {A : Type 0} (P : A → Type 0) (r : Exec A) → ((x : A) → r ≡ some x → P x) → After P r
After-inv P none h = _
After-inv P (some x) h = h x refl

-- The numbers of the items are old.
abbrev pub Bounded : Session → Type 0
Bounded s = All (λ (p : PendingSend). p.item < s.next_item) s.pending_sends

-- The frames that are due, with those that are accepted, are completed or due; and no more than
-- these, with those that are asked for.
abbrev pub Balanced : Session → (accepted asked : ℕ → ℕ) → Reply → Type 0
Balanced s accepted asked r =
    Bounded r.session
    × ((c : ℕ)
        → (due c s.pending_sends + accepted c
            ≤ completed c r.events + due c r.session.pending_sends)
          × (completed c r.events + due c r.session.pending_sends
              ≤ due c s.pending_sends + asked c))

abbrev pub no_sends : ℕ → ℕ
no_sends c = 0

pub replies-Balanced :
    (s : Session) (status : Status) (c : UwsClient) (events : List Event)
    → Bounded s
    → Balanced s no_sends no_sends (replies s status c events)
unfolding replies
replies-Balanced s status c events old = (
  deliver-All (λ (p : PendingSend). p.item < s.next_item) s.pending_sends events old,
  λ k. (
    omega (arith, deliver-due k s.pending_sends events),
    omega (arith, deliver-due k s.pending_sends events),
  ),
)

pub refused-Balanced :
    (s : Session) (asked : ℕ → ℕ) → Bounded s → Balanced s no_sends asked (refused s)
unfolding refused
refused-Balanced s asked old = (old, λ c. (omega arith, omega arith))

pub open_async-Balanced :
    (s : Session) (state : UwsState) (open_ok : Bool)
    → Bounded s
    → Balanced s no_sends no_sends (open_async s state open_ok)
unfolding open_async start_opening
open_async-Balanced s uws_closed open_ok old =
    replies-Balanced (record s { callbacks = true }) _ _ _ old
open_async-Balanced s uws_opening_underlying_io open_ok old = refused-Balanced s no_sends old
open_async-Balanced s uws_waiting_for_upgrade_response open_ok old = refused-Balanced s no_sends old
open_async-Balanced s uws_open open_ok old = refused-Balanced s no_sends old
open_async-Balanced s uws_closing_waiting_for_close open_ok old = refused-Balanced s no_sends old
open_async-Balanced s uws_closing_sending_close open_ok old = refused-Balanced s no_sends old
open_async-Balanced s uws_closing_underlying_io open_ok old = refused-Balanced s no_sends old
open_async-Balanced s uws_error open_ok old = refused-Balanced s no_sends old

start_closing-Balanced :
    (w : World) (s : Session) (on_close : Bool)
    → Bounded s
    → Balanced s no_sends no_sends (start_closing w s on_close)
unfolding start_closing
start_closing-Balanced w s on_close old = elim (Bool-cases (w.close_ok s.client.clock)) [
  | inl shut ↦ rw shut (replies-Balanced s _ _ _ old)
  | inr fails ↦ rw fails (replies-Balanced s _ _ _ old)
]

pub close_async-Balanced :
    (w : World) (s : Session) (state : UwsState) (on_close : Bool)
    → Bounded s
    → Balanced s no_sends no_sends (close_async w s state on_close)
unfolding close_async
close_async-Balanced w s uws_closed on_close old = refused-Balanced s no_sends old
close_async-Balanced w s uws_opening_underlying_io on_close old =
    start_closing-Balanced w s on_close old
close_async-Balanced w s uws_waiting_for_upgrade_response on_close old =
    start_closing-Balanced w s on_close old
close_async-Balanced w s uws_open on_close old = start_closing-Balanced w s on_close old
close_async-Balanced w s uws_closing_waiting_for_close on_close old =
    start_closing-Balanced w s on_close old
close_async-Balanced w s uws_closing_sending_close on_close old =
    start_closing-Balanced w s on_close old
close_async-Balanced w s uws_closing_underlying_io on_close old =
    start_closing-Balanced w s on_close old
close_async-Balanced w s uws_error on_close old = start_closing-Balanced w s on_close old

start_handshake-Balanced :
    (w : World) (s : Session) (close_code : ℕ) (on_close : Bool)
    → Bounded s
    → After (Balanced s no_sends no_sends) (start_handshake w s close_code on_close)
unfolding start_handshake
start_handshake-Balanced w s close_code on_close old =
    elim (Option-cases (send_close_frame w s.client close_code)) [
      | inl missing ↦ rw missing _
      | inr (sent, there) ↦ rw there (replies-Balanced s _ _ _ old)
    ]

pub close_handshake_async-Balanced :
    (w : World) (s : Session) (state : UwsState) (close_code : ℕ) (on_close : Bool)
    → Bounded s
    → After (Balanced s no_sends no_sends) (close_handshake_async w s state close_code on_close)
unfolding close_handshake_async
close_handshake_async-Balanced w s uws_opening_underlying_io close_code on_close old =
    start_handshake-Balanced w s close_code on_close old
close_handshake_async-Balanced w s uws_waiting_for_upgrade_response close_code on_close old =
    start_handshake-Balanced w s close_code on_close old
close_handshake_async-Balanced w s uws_open close_code on_close old =
    start_handshake-Balanced w s close_code on_close old
close_handshake_async-Balanced w s uws_error close_code on_close old =
    start_handshake-Balanced w s close_code on_close old
close_handshake_async-Balanced w s uws_closed close_code on_close old =
    refused-Balanced s no_sends old
close_handshake_async-Balanced w s uws_closing_waiting_for_close close_code on_close old =
    refused-Balanced s no_sends old
close_handshake_async-Balanced w s uws_closing_sending_close close_code on_close old =
    refused-Balanced s no_sends old
close_handshake_async-Balanced w s uws_closing_underlying_io close_code on_close old =
    refused-Balanced s no_sends old

pub on_underlying_io-Balanced :
    (w : World) (s : Session) (call : IoCall)
    → Bounded s
    → After (Balanced s no_sends no_sends) (on_underlying_io w s call)
unfolding on_underlying_io
on_underlying_io-Balanced w s (io_open_ok p) old = replies-Balanced s _ _ _ old
on_underlying_io-Balanced w s (io_open_failed negative code) old = replies-Balanced s _ _ _ old
on_underlying_io-Balanced w s (io_open_cancelled negative code) old = replies-Balanced s _ _ _ old
on_underlying_io-Balanced w s (io_bytes_received bytes) old =
    elim (Option-cases (on_bytes_received w s.client bytes)) [
      | inl missing ↦ rw missing _
      | inr (r, there) ↦ rw there (replies-Balanced s _ _ _ old)
    ]
on_underlying_io-Balanced w s io_failed old = replies-Balanced s _ _ _ old
on_underlying_io-Balanced w s io_close_complete old = replies-Balanced s _ _ _ old
on_underlying_io-Balanced w s (io_close_sent result) old = replies-Balanced s _ _ _ old
on_underlying_io-Balanced w s (io_send_complete item result) old =
    After-inv (Balanced s no_sends no_sends) (complete_send_frame s item result) (λ r e.
      let (h1, h2, h3) =
        complete_send_frame-inv (λ (p : PendingSend). p.item < s.next_item) s item result r e old in
      (
        coe 1 0 (i. All (λ (p : PendingSend). p.item < h2 i) r.session.pending_sends) h1,
        λ c. (omega (arith, h3 c), omega (arith, h3 c)),
      ))
