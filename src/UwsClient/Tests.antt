-- ===== src/UwsClient/Tests.antt =====
-- The theorems about src/uws_client.c at concrete inputs.
use azure_c_shared_utility.Base.{
  false, Bytes, ◌++◌, refl, inl, inr, true, [], ◌∷◌, arith, List, codes, always, All, some,
}
use azure_c_shared_utility.UwsFrameEncoder.{first_byte, length_code, more_length}
use azure_c_shared_utility.UwsClient.Upgrade.{
  empty_line, response_length, parse_http_response, parse_string_to_decimal, to_int, is_int_limit,
  skip_to,
}
use azure_c_shared_utility.UwsClient.Opens.{IsText, on_bytes_received-opens}
use azure_c_shared_utility.UwsClient.{
  uws_waiting_for_upgrade_response, open_completed, ws_open_ok, UwsClient, World, uws_open,
}
use azure_c_shared_utility.UwsClient.Receive.{on_bytes_received}
use azure_c_shared_utility.UwsClient.Messages.{Message, IsMessage, wire, received}
use azure_c_shared_utility.UwsClient.Drains.{Idle}
use azure_c_shared_utility.UwsClient.Runs.{Receives, on_bytes_received-wire}

abbrev calm : World
calm = record {
  got = always;
  send_ok = always;
  close_ok = always;
  garbage = λ n i. 0;
  requests = λ n. always;
  rand = λ n i. 7;
  strtol = λ s. some ((false, 101), false);
}

abbrev opened : UwsClient
opened = record {
  uws_state = uws_open;
  stream = [];
  fragments = [];
  fragmented_frame_type = 0;
  on_ws_close_complete = true;
  clock = 0;
}

opened-Idle : Idle uws_open opened
opened-Idle = record { at_state = refl; no_fragments = refl; no_type = refl }

-- A text in three fragments, and a binary message in one frame.
abbrev first_message : Message
first_message = record {
  kind = 1;
  parts = codes "We" ∷ codes "bSo" ∷ [];
  final_part = codes "cket";
}

abbrev second_message : Message
second_message = record { kind = 2; parts = []; final_part = 0 ∷ 255 ∷ [] }

abbrev two_messages : List Message
two_messages = first_message ∷ second_message ∷ []

two_messages-IsMessage : All IsMessage two_messages
two_messages-IsMessage =
    ((inl refl, (omega arith, (omega arith, _)), omega arith), ((inr refl, _, omega arith), _))

on_bytes_received-wire_example :
    Receives uws_open (on_bytes_received calm opened (wire two_messages)) (received two_messages)
on_bytes_received-wire_example =
    on_bytes_received-wire calm opened first_message (second_message ∷ []) (λ n. refl) refl
      opened-Idle refl two_messages-IsMessage

abbrev waiting : UwsClient
waiting = record opened { uws_state = uws_waiting_for_upgrade_response }

waiting-Idle : Idle uws_waiting_for_upgrade_response waiting
waiting-Idle = record { at_state = refl; no_fragments = refl; no_type = refl }

abbrev ok_response : Bytes
ok_response = codes "HTTP/1.1 101 OK" ++ empty_line

ok_response-IsText : IsText ok_response
ok_response-IsText = (
  refl,
  (
    refl,
    (
      refl,
      (
        refl,
        (
          refl,
          (
            refl,
            (
              refl,
              (
                refl,
                (
                  refl,
                  (refl, (refl, (refl, (refl, (refl, (refl, (refl, (refl, (refl, (refl, _)))))))))),
                ),
              ),
            ),
          ),
        ),
      ),
    ),
  ),
)

on_bytes_received-opens_example :
    Receives uws_open
      (on_bytes_received calm waiting (ok_response ++ wire two_messages))
      (open_completed ws_open_ok ∷ received two_messages)
unfolding response_length parse_http_response parse_string_to_decimal to_int is_int_limit skip_to
    length_code more_length first_byte
on_bytes_received-opens_example =
    on_bytes_received-opens calm waiting ok_response two_messages (λ n. refl) waiting-Idle refl
      ok_response-IsText refl refl two_messages-IsMessage

-- A masked close frame, and the first bytes of another frame.
abbrev masked_bytes : Bytes
masked_bytes = 0x88 ∷ 0x82 ∷ 1 ∷ 2 ∷ 3 ∷ 4 ∷ 0x81 ∷ 5 ∷ []
