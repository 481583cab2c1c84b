-- ===== src/UwsClient/Request/Tests.antt =====
-- An upgrade request of src/uws_client.c.
use azure_c_shared_utility.Base.{
  ℕ, ◌≡◌, refl, Bool, false, Option, some, [], ◌∷◌, ◌++◌, ◌+◌, always, codes, Bytes, arith,
}
use azure_c_shared_utility.Base64
use azure_c_shared_utility.HostUtils.Spec.{
  authority, host_of, inside_brackets, without_bracket, contains,
}
use azure_c_shared_utility.UwsClient.Request.{Target, nonce_bytes, line_end, prepare_request}
use azure_c_shared_utility.UwsClient.Request.Sizes.{Printed, printed_plain, more_digits, one_digit}
use azure_c_shared_utility.UwsClient.Request.Text.{
  header_lines, protocol_line, more_protocols, request_text, request_or_error, prepare_request-text,
}

abbrev target : Target
target = record {
  hostname = codes "a.net";
  resource_name = codes "/x";
  port_negative = false;
  port = 443;
  protocols = some (codes "AMQP" ∷ codes "MQTT" ∷ []);
  request_headers = (codes "Key", codes "Value") ∷ [];
}

-- snprintf at this port.
abbrev shown : Bool → ℕ → Option Bytes
shown negative n = some (codes "443")

shown-Printed : Printed false 443 (codes "443")
shown-Printed =
    printed_plain (more_digits (omega arith) (more_digits (omega arith) (one_digit (omega arith))))

abbrev counting : ℕ → ℕ
counting i = 250 + i

target_text :
    request_text target (codes "443") (codes "AAAA")
    ≡ codes "GET /x HTTP/1.1"
      ++ (line_end
          ++ (codes "Host: a.net:443"
              ++ (line_end
                  ++ (codes "Upgrade: websocket"
                      ++ (line_end
                          ++ (codes "Connection: Upgrade"
                              ++ (line_end
                                  ++ (codes "Sec-WebSocket-Key: AAAA"
                                      ++ (line_end
                                          ++ (codes "Sec-WebSocket-Version: 13"
                                              ++ (line_end
                                                  ++ (codes "Key: Value"
                                                      ++ (line_end
                                                          ++ (codes
                                                            "Sec-WebSocket-Protocol: AMQP, MQTT"
                                                            ++ (line_end ++ line_end)))))))))))))))
unfolding request_text authority host_of inside_brackets without_bracket contains header_lines
    protocol_line more_protocols
target_text = refl

prepare_request-text_example :
    prepare_request target (λ i. 0) always counting shown
    ≡ some (
        request_or_error target
          (always 3)
          (codes "443")
          (Base64.encode_from (nonce_bytes counting)))
unfolding header_lines
prepare_request-text_example =
    prepare_request-text target (λ i. 0) always counting shown (codes "443") (omega arith)
      (omega arith) (omega arith) refl shown-Printed
