-- ===== src/Wsio/Tests.antt =====
-- Runs of src/wsio.c.
use azure_c_shared_utility.Base.{◌+◌, ◌≡◌, refl, true, false, some, [], ◌∷◌, always, codes}
use azure_c_shared_utility.Wsio.{
  open_ok, send_ok, send_cancelled, open_completed, received, send_completed, indicate, completion,
  take_item, complete_send_item, ws_open_complete, ws_frame_received, ws_send_frame_complete,
  on_ws_open_complete, on_ws_frame_received, close_event, on_uws, on_uws_all, cancellations,
  close_open, send_ended, internal_close, start_open, wsio_open, wsio_send, opens, closes, sends,
  uws, step,
}
use azure_c_shared_utility.Wsio.Count.{due, completed}
use azure_c_shared_utility.Wsio.Runs.{History, Reach, start, next, Reach-sends}

-- Four sends: the second is completed by the client, the third while it is sent, the fourth is not
-- accepted, and the first is completed by wsio_close.
reached : (h : History) × Reach h
unfolding step send_ended wsio_open start_open on_uws on_ws_open_complete indicate wsio_send
    on_ws_frame_received complete_send_item take_item completion internal_close close_open
    on_uws_all close_event cancellations
reached =
    let r1 = next (opens 7 true) start _ refl in
    let r2 = next (uws (ws_open_complete open_ok)) r1 _ refl in
    let r3 = next (sends always (some 1) true []) r2 _ refl in
    let r4 = next (sends always (some 2) true []) r3 _ refl in
    let r5 = next (uws (ws_frame_received true (some (codes "hi")) 2)) r4 _ refl in
    let r6 = next (uws (ws_send_frame_complete 1 send_ok)) r5 _ refl in
    let r7 = next (sends always (some 3) true (ws_send_frame_complete 2 send_ok ∷ [])) r6 _ refl in
    let r8 = next (sends always (some 4) false []) r7 _ refl in
    (_, next (closes (some 9) true []) r8 _ refl)

reached_events :
    reached.0.events
    ≡ open_completed 7 open_ok
      ∷ received 7 (codes "hi")
      ∷ send_completed 2 send_ok
      ∷ send_completed 3 send_ok
      ∷ send_completed 1 send_cancelled
      ∷ []
unfolding reached
reached_events = refl

Reach-sends_example : reached.0.sent 2 ≡ completed 2 reached.0.events + due 2 reached.0.wsio.pending
Reach-sends_example = Reach-sends reached.1 2
