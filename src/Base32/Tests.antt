-- ===== src/Base32/Tests.antt =====
-- Runs of src/base32.c, and the theorems about it at concrete inputs.
use azure_c_shared_utility.Base.{
  ◌≡◌, ◌&&◌, ◌%◌, ◌==◌, refl, some, arith, Bytes, codes, length, always, Garbage, All, IsByte,
}
use azure_c_shared_utility.Base32.{base32_char, encode_from}
use azure_c_shared_utility.Base32.Decode.{decode_string, all_ascii}
use azure_c_shared_utility.Buffer.Laws.Create.{Creates}
use azure_c_shared_utility.Base32.Laws.{decode_string-encode_from}
use azure_c_shared_utility.Base32.Safety.{Answers, decode_string-Answers}

abbrev zeros : Garbage
zeros i = 0

abbrev foobar : Bytes
foobar = codes "foobar"

foobar-IsByte : All IsByte foobar
foobar-IsByte =
    (omega arith, (omega arith, (omega arith, (omega arith, (omega arith, (omega arith, _))))))

encode_foobar : encode_from foobar ≡ codes "mzxw6ytboi======"
unfolding encode_from base32_char
encode_foobar = refl

decode_string-encode_from_example :
    Creates
      (decode_string zeros always (some (encode_from foobar)))
      (always 0 && (always 1 && always 2))
      foobar
decode_string-encode_from_example =
    decode_string-encode_from zeros always foobar foobar-IsByte (omega arith)

-- A character that is no digit of the alphabet.
abbrev dashes : Bytes
dashes = codes "mzxw6yt-mz======"

decode_string-Answers_example :
    Answers
      (decode_string zeros always (some dashes))
      (length dashes % 8 == 0 && (all_ascii dashes && (always 0 && (always 1 && always 2))))
decode_string-Answers_example = decode_string-Answers zeros always dashes (omega arith)
