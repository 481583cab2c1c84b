-- ===== src/Base32/Groups.antt =====
-- One group of src/base32.c: the bits that the characters stand for, as arithmetic.
use azure_c_shared_utility.Base.{ℕ, ◌+◌, ◌*◌, ◌/◌, ◌%◌, ◌<◌, ◌≡◌, refl, true, ltb}
use azure_c_shared_utility.Base.Bits.{
  each_under, eq_below, each_under_lem, eq_below_two, eq_below_three,
}
use azure_c_shared_utility.Base32.{base32_char, pos1, pos2, pos3, pos4, pos5, pos6, pos7}
use azure_c_shared_utility.Base32.Decode.{convert_value, byte0, byte1, byte2, byte3, byte4}

pub char_back : (p : ℕ) → p < 33 → convert_value (base32_char p) ≡ p
unfolding each_under convert_value base32_char
char_back = eq_below 33 (λ p. convert_value (base32_char p)) (λ p. p) refl

pub char-ascii : (p : ℕ) → p < 33 → ltb (base32_char p) 0x80 ≡ true
unfolding each_under base32_char
char-ascii = each_under_lem 33 (λ p. ltb (base32_char p) 0x80) refl

pub char-IsChar : (p : ℕ) → p < 33 → ltb 0 (base32_char p) ≡ true
unfolding each_under base32_char
char-IsChar = each_under_lem 33 (λ p. ltb 0 (base32_char p)) refl

-- The positions of the encoder.
pub pos1_lem : (a : ℕ) → a < 256 → pos1 a ≡ a / 8
unfolding each_under
pos1_lem = eq_below 256 pos1 (λ a. a / 8) refl

pub pos2_lem : (a b : ℕ) → a < 256 → b < 256 → pos2 a b ≡ b / 64 + a % 8 * 4
unfolding each_under
pos2_lem = eq_below_two 256 256 pos2 (λ a b. b / 64 + a % 8 * 4) refl

pub pos3_lem : (a : ℕ) → a < 256 → pos3 a ≡ a / 2 % 32
unfolding each_under
pos3_lem = eq_below 256 pos3 (λ a. a / 2 % 32) refl

pub pos4_lem : (a b : ℕ) → a < 256 → b < 256 → pos4 a b ≡ b / 16 + a % 2 * 16
unfolding each_under
pos4_lem = eq_below_two 256 256 pos4 (λ a b. b / 16 + a % 2 * 16) refl

pub pos5_lem : (a b : ℕ) → a < 256 → b < 256 → pos5 a b ≡ b / 128 + a % 16 * 2
unfolding each_under
pos5_lem = eq_below_two 256 256 pos5 (λ a b. b / 128 + a % 16 * 2) refl

pub pos6_lem : (a : ℕ) → a < 256 → pos6 a ≡ a / 4 % 32
unfolding each_under
pos6_lem = eq_below 256 pos6 (λ a. a / 4 % 32) refl

pub pos7_lem : (a b : ℕ) → a < 256 → b < 256 → pos7 a b ≡ b / 32 + a % 4 * 8
unfolding each_under
pos7_lem = eq_below_two 256 256 pos7 (λ a b. b / 32 + a % 4 * 8) refl

-- The bytes of the decoder.
pub byte0_lem : (a b : ℕ) → a < 33 → b < 33 → byte0 a b ≡ a % 32 * 8 + b / 4 % 8
unfolding each_under byte0
byte0_lem = eq_below_two 33 33 byte0 (λ a b. a % 32 * 8 + b / 4 % 8) refl

pub byte1_lem :
    (a b c : ℕ) → a < 33 → b < 33 → c < 33 → byte1 a b c ≡ a % 4 * 64 + b % 32 * 2 + c / 16 % 2
unfolding each_under byte1
byte1_lem = eq_below_three 33 33 33 byte1 (λ a b c. a % 4 * 64 + b % 32 * 2 + c / 16 % 2) refl

pub byte2_lem : (a b : ℕ) → a < 33 → b < 33 → byte2 a b ≡ a % 16 * 16 + b / 2 % 16
unfolding each_under byte2
byte2_lem = eq_below_two 33 33 byte2 (λ a b. a % 16 * 16 + b / 2 % 16) refl

pub byte3_lem :
    (a b c : ℕ) → a < 33 → b < 33 → c < 33 → byte3 a b c ≡ a % 2 * 128 + b % 32 * 4 + c / 8 % 4
unfolding each_under byte3
byte3_lem = eq_below_three 33 33 33 byte3 (λ a b c. a % 2 * 128 + b % 32 * 4 + c / 8 % 4) refl

pub byte4_lem : (a b : ℕ) → a < 33 → b < 33 → byte4 a b ≡ a % 8 * 32 + b % 32
unfolding each_under byte4
byte4_lem = eq_below_two 33 33 byte4 (λ a b. a % 8 * 32 + b % 32) refl
