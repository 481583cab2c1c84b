-- ===== src/UrlEncode/Tests.antt =====
-- Runs of src/urlencode.c, and the theorems about it at concrete inputs.
use azure_c_shared_utility.Base.{
  ◌<◌, ◌≡◌, ◌&&◌, refl, some, is_some, arith, Bytes, codes, always, Garbage, All, ◌>>=◌,
}
use azure_c_shared_utility.UrlEncode.{
  is_printable, nibble_to_string, printable_char, url_encode, url_decode, size_loop,
}
use azure_c_shared_utility.UrlEncode.Laws.{
  encoded, Answers, url_decode-Answers, url_decode-url_encode,
}

abbrev zeros : Garbage
zeros i = 0

abbrev question : Bytes
question = codes "a b%"

encoded-question : encoded question ≡ codes "a%20b%25"
unfolding encoded printable_char is_printable nibble_to_string
encoded-question = refl

question_ascii : All (λ c. (0 < c) × (c < 128)) question
question_ascii = (
  (omega arith, omega arith),
  ((omega arith, omega arith), ((omega arith, omega arith), ((omega arith, omega arith), _))),
)

url_decode-url_encode_example :
    (url_encode zeros always (some question) >>= url_decode zeros always) ≡ some (some question)
url_decode-url_encode_example =
    url_decode-url_encode zeros zeros always always question question_ascii refl refl refl refl

-- A character outside of ASCII is refused.
abbrev foreign : Bytes
foreign = codes "ab%c3%a9"

url_decode-Answers_example :
    Answers
      (url_decode zeros always (some foreign))
      (is_some (size_loop 0 foreign) && (always 0 && always 1))
url_decode-Answers_example = url_decode-Answers zeros always foreign
