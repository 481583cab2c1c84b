-- ===== src/UwsClient/Session/Tests.antt =====
-- A run of a session of src/uws_client.c.
use azure_c_shared_utility.Base.{
  copy_in, copy_out, resize, overlay, ℕ, ◌+◌, ◌≤◌, ◌≡◌, ap, ◌∙◌, refl, true, false, some, [], ◌∷◌,
  ◌++◌, always, codes, Bytes, arith, none,
}
use azure_c_shared_utility.UwsFrameEncoder.Spec.{frame}
use azure_c_shared_utility.UwsClient.{
  uws_open, World, open_completed, ws_open_ok, io_opens, io_sends, io_closes,
}
use azure_c_shared_utility.UwsClient.Upgrade.{
  empty_line, response_length, parse_http_response, parse_string_to_decimal, to_int, is_int_limit,
  skip_to, upgraded, upgrade_response,
}
use azure_c_shared_utility.UwsClient.Receive.{
  add_to_stream, on_bytes_received, bytes_in_state, append_bytes, receive_loop, receive_round,
  receive_frame,
}
use azure_c_shared_utility.UwsClient.Session.{
  Session, Reply, indicated, send_frame_completed, send_frame_ok, send_frame_cancelled,
  frame_completion, take_pending, complete_send_frame, complete_all, clear_pending_sends, deliver,
  replies, queue_frame, send_open, send_in_state, send_frame_async, is_null_with_size,
}
use azure_c_shared_utility.UwsClient.Session.Calls.{
  start_opening, open_async, start_closing, close_async, prepared, io_open_ok, io_bytes_received,
  io_send_complete, SessionCall, send_request, io_opened, on_underlying_io_open_complete,
  on_underlying_io, opens, sends_frame, io_calls, step, close_to_destroy, destroy,
}
use azure_c_shared_utility.UwsClient.Session.Count.{due, completed}
use azure_c_shared_utility.UwsClient.Session.Runs.{
  History, Reach, start, next, Reach-frames, destroy-frames,
}
use azure_c_shared_utility.UwsClient.Session.Sends.{
  to_send, SentReply, frame-encoded, send_frame_async-sends,
}
use azure_c_shared_utility.UwsClient.Session.Closes.{Closes, close_async-Closes}

abbrev calm : World
calm = record {
  got = always;
  send_ok = always;
  close_ok = always;
  garbage = λ n i. 0;
  requests = λ n. always;
  rand = λ n i. 7;
  strtol = λ s. some ((false, 101), false);
}

abbrev response : Bytes
response = codes "HTTP/1.1 101 OK" ++ empty_line

-- Open, with the upgrade response received.
opened : (h : History) × Reach calm h × (h.session.client.uws_state ≡ uws_open)
unfolding step open_async start_opening replies deliver on_underlying_io
    on_underlying_io_open_complete io_opened send_request on_bytes_received bytes_in_state
    append_bytes receive_loop receive_round add_to_stream copy_in copy_out overlay resize
    receive_frame upgrade_response upgraded response_length parse_http_response
    parse_string_to_decimal to_int is_int_limit skip_to
opened =
    let r1 = next (opens true) start refl in
    let r2 = next (io_calls (io_open_ok (prepared (codes "GET /")))) r1 refl in
    let r3 = next (io_calls (io_bytes_received response)) r2 refl in (_, r3, refl)

abbrev hi : Bytes
hi = codes "hi"

abbrev send_hi : ℕ → SessionCall
send_hi context = sends_frame always (to_send 1 hi true (some context)) []

send_hi_lem :
    (s : Session) (context : ℕ)
    → s.client.uws_state ≡ uws_open
    → step calm s (send_hi context)
      ≡ queue_frame calm s (some context) (frame (λ i. 7) 1 hi true true 0) []
unfolding step send_frame_async is_null_with_size send_in_state send_open
send_hi_lem s context at_open =
    ap (λ state. send_in_state calm s state always (to_send 1 hi true (some context)) []) at_open
    ∙ rw (frame-encoded calm s.client.clock 1 hi true (some context) (omega arith) (omega arith))
        refl

-- Two frames, of which the first one is sent.
used : (h : History) × Reach calm h × (h.session.client.uws_state ≡ uws_open)
unfolding opened queue_frame complete_all step on_underlying_io complete_send_frame take_pending
    frame_completion
used =
    let r1 = next (send_hi 5) opened.1 (send_hi_lem opened.0.session 5 opened.2) in
    let r2 = next (send_hi 6) r1 (send_hi_lem _ 6 refl) in
    let r3 = next (io_calls (io_send_complete 0 send_frame_ok)) r2 refl in (_, r3, refl)

used_events :
    used.0.events
    ≡ indicated io_opens
      ∷ indicated (io_sends (codes "GET /"))
      ∷ indicated (open_completed ws_open_ok)
      ∷ indicated (io_sends (frame (λ i. 7) 1 hi true true 0))
      ∷ indicated (io_sends (frame (λ i. 7) 1 hi true true 0))
      ∷ send_frame_completed 5 send_frame_ok
      ∷ []
unfolding used opened
used_events = refl

Reach-frames_example :
    (used.0.accepted 6 ≤ completed 6 used.0.events + due 6 used.0.session.pending_sends)
    × (completed 6 used.0.events + due 6 used.0.session.pending_sends ≤ used.0.asked 6)
Reach-frames_example = Reach-frames used.1 6

destroyed :
    destroy calm used.0.session []
    ≡ some (indicated io_closes ∷ send_frame_completed 6 send_frame_cancelled ∷ [])
unfolding used opened destroy close_to_destroy close_async start_closing replies deliver
    complete_all clear_pending_sends frame_completion
destroyed = refl

destroy-frames_example :
    (used.0.accepted 6
      ≤ completed 6 (
          used.0.events
          ++ (indicated io_closes ∷ send_frame_completed 6 send_frame_cancelled ∷ [])))
    × (completed 6 (
          used.0.events ++ (indicated io_closes ∷ send_frame_completed 6 send_frame_cancelled ∷ []))
        ≤ used.0.asked 6)
destroy-frames_example = destroy-frames used.1 [] _ destroyed 6

send_frame_async-sends_example :
    (r : Reply) × (send_frame_async calm opened.0.session always
        (to_send 2 (0 ∷ 255 ∷ []) false none)
        []
      ≡ some r)
    × SentReply calm opened.0.session always 2 (0 ∷ 255 ∷ []) false none r
unfolding opened
send_frame_async-sends_example =
    send_frame_async-sends calm opened.0.session always 2 (0 ∷ 255 ∷ []) false none refl _
      (omega arith) (omega arith)

close_async-Closes_example : Closes calm used.0.session true false true
unfolding used opened
close_async-Closes_example = close_async-Closes calm used.0.session true refl
