-- ===== src/Base64/Tests.antt =====
-- Runs of src/base64.c, and the theorems about it at concrete inputs.
use azure_c_shared_utility.Base.{
  ◌≡◌, ◌&&◌, ◌||◌, ◌%◌, refl, some, none, arith, ◌==◌, if◌then◌else◌, codes, length, is_some,
  always, never, Garbage, Option,
}
use azure_c_shared_utility.Buffer.{Buffer, old_block}
use azure_c_shared_utility.Buffer.Access
use azure_c_shared_utility.Base64.{base64char, base64b16, encode_from, encode_internal}
use azure_c_shared_utility.Base64.Decode.{decoder}
use azure_c_shared_utility.Base64.Laws.{decoder-encode, decoder_safe, encode_internal_lem}

abbrev zeros : Garbage
zeros i = 0

encode_hello : encode_from (codes "hello") ≡ codes "aGVsbG8="
unfolding encode_from base64char base64b16
encode_hello = refl

decoder-encode_example :
    (b : Buffer) × (decoder zeros always (some (encode_from (codes "hello"))) ≡ some (some b))
    × (Access.buffer_length (some b) ≡ length (codes "hello"))
    × (old_block b.buffer ≡ codes "hello")
decoder-encode_example = decoder-encode zeros always (codes "hello") (omega arith) refl refl

decoder_safe_example :
    (r : Option Buffer) × (decoder zeros never (some (codes "A===")) ≡ some r)
    × (is_some r ≡ (
        (length (codes "A===") % 4 == 0) && (never 0 && ((length (codes "A===") == 0) || never 1))))
decoder_safe_example = decoder_safe zeros never (codes "A===")

encode_internal_lem_example :
    encode_internal zeros always (codes "hi")
    ≡ some (if always 0 && always 1 then some (encode_from (codes "hi")) else none)
encode_internal_lem_example =
    encode_internal_lem zeros always (codes "hi") (omega arith) (omega arith)
