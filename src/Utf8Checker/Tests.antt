-- ===== src/Utf8Checker/Tests.antt =====
-- Runs of src/utf8_checker.c.
use azure_c_shared_utility.Base.{◌≡◌, ◌↔◌, refl, true, false, some, [], ◌∷◌, arith, Bytes}
use azure_c_shared_utility.Utf8Checker.{
  is_valid_utf8, valid_from, sequence, continued, longer_than, four_bytes, three_bytes, two_bytes,
}
use azure_c_shared_utility.Utf8Checker.Accepted.{is_valid_utf8_iff, IsEncodedText}

-- The euro sign and a letter.
abbrev euro_a : Bytes
euro_a = 0xE2 ∷ 0x82 ∷ 0xAC ∷ 0x61 ∷ []

is_valid_utf8_iff_example : (is_valid_utf8 (some euro_a) ≡ true) ↔ IsEncodedText euro_a
is_valid_utf8_iff_example =
    is_valid_utf8_iff euro_a (omega arith, (omega arith, (omega arith, (omega arith, _))))

euro_a-IsValid : is_valid_utf8 (some euro_a) ≡ true
unfolding is_valid_utf8 valid_from sequence continued longer_than four_bytes three_bytes two_bytes
euro_a-IsValid = refl

-- A longer form of the letter.
overlong : is_valid_utf8 (some (0xC1 ∷ 0xA1 ∷ [])) ≡ false
unfolding is_valid_utf8 valid_from sequence continued longer_than four_bytes three_bytes two_bytes
overlong = refl

-- The surrogate U+D800.
surrogate : is_valid_utf8 (some (0xED ∷ 0xA0 ∷ 0x80 ∷ [])) ≡ true
unfolding is_valid_utf8 valid_from sequence continued longer_than four_bytes three_bytes two_bytes
surrogate = refl
