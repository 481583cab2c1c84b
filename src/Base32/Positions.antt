-- ===== src/Base32/Positions.antt =====
-- The bytes of a group of src/base32.c, read back from its positions.
use azure_c_shared_utility.Base.{ℕ, ◌*◌, ◌/◌, ◌%◌, ◌<◌, ◌≡◌, refl, arith, bit_and}
use azure_c_shared_utility.Base.Bits.{bit_and_1, bit_and_3, bit_and_7, bit_and_15, bit_and_31}
use azure_c_shared_utility.Base32.{pos1, pos2, pos3, pos4, pos5, pos6, pos7, pos8}
use azure_c_shared_utility.Base32.Decode.{byte0, byte1, byte2, byte3, byte4, padding}
use azure_c_shared_utility.Base32.Groups.{
  pos1_lem, pos2_lem, pos3_lem, pos4_lem, pos5_lem, pos6_lem, pos7_lem, byte0_lem, byte1_lem,
  byte2_lem, byte3_lem, byte4_lem,
}

-- A position that carries the low bits of one byte in front of the high bits of the next.
abbrev pub Joins : ℕ → ℕ → ℕ → ℕ → Type 0
Joins p low size high = (p < 32) × (p / size ≡ low) × (p % size ≡ high)

module _ (b0 b1 b2 b3 b4 : ℕ) (h0 : b0 < 256) (h1 : b1 < 256) (h2 : b2 < 256) (h3 : b3 < 256)
    (h4 : b4 < 256) where
  pub pos1-bound : pos1 b0 < 32
  pos1-bound = omega (arith, pos1_lem b0 h0)

  pub pos3-bound : pos3 b1 < 32
  pos3-bound = omega (arith, pos3_lem b1 h1)

  pub pos6-bound : pos6 b3 < 32
  pos6-bound = omega (arith, pos6_lem b3 h3)

  pub pos8-bound : pos8 b4 < 32
  pos8-bound = omega (arith, bit_and_31 b4 h4)

  pub pos2-Joins : Joins (pos2 b0 b1) (b0 % 8) 4 (b1 / 64)
  pos2-Joins = let e = pos2_lem b0 b1 h0 h1 in (omega arith, omega arith, omega arith)

  pub pos4-Joins : Joins (pos4 b1 b2) (b1 % 2) 16 (b2 / 16)
  pos4-Joins = let e = pos4_lem b1 b2 h1 h2 in (omega arith, omega arith, omega arith)

  pub pos5-Joins : Joins (pos5 b2 b3) (b2 % 16) 2 (b3 / 128)
  pos5-Joins = let e = pos5_lem b2 b3 h2 h3 in (omega arith, omega arith, omega arith)

  pub pos7-Joins : Joins (pos7 b3 b4) (b3 % 4) 8 (b4 / 32)
  pos7-Joins = let e = pos7_lem b3 b4 h3 h4 in (omega arith, omega arith, omega arith)

-- The last position of a short block carries the low bits alone.
pub last2-Joins : (b : ℕ) → b < 256 → Joins (bit_and b 0x07 * 4) (b % 8) 4 0
last2-Joins b h = let e = bit_and_7 b h in (omega arith, omega arith, omega arith)

pub last4-Joins : (b : ℕ) → b < 256 → Joins (bit_and b 0x01 * 16) (b % 2) 16 0
last4-Joins b h = let e = bit_and_1 b h in (omega arith, omega arith, omega arith)

pub last5-Joins : (b : ℕ) → b < 256 → Joins (bit_and b 0x0F * 2) (b % 16) 2 0
last5-Joins b h = let e = bit_and_15 b h in (omega arith, omega arith, omega arith)

pub last7-Joins : (b : ℕ) → b < 256 → Joins (bit_and b 0x03 * 8) (b % 4) 8 0
last7-Joins b h = let e = bit_and_3 b h in (omega arith, omega arith, omega arith)

pub byte0_back : (b p2 x : ℕ) → b < 256 → Joins p2 (b % 8) 4 x → byte0 (pos1 b) p2 ≡ b
byte0_back b p2 x h (small, low, high) =
    let e = pos1_lem b h in let d = byte0_lem (pos1 b) p2 (omega arith) (omega arith) in omega arith

pub byte1_back :
    (b p2 p4 x y : ℕ)
    → b < 256
    → Joins p2 x 4 (b / 64)
    → Joins p4 (b % 2) 16 y
    → byte1 p2 (pos3 b) p4 ≡ b
byte1_back b p2 p4 x y h (small2, low2, high2) (small4, low4, high4) =
    let e = pos3_lem b h in
    let d = byte1_lem p2 (pos3 b) p4 (omega arith) (omega arith) (omega arith) in omega arith

pub byte2_back :
    (b p4 p5 x y : ℕ) → b < 256 → Joins p4 x 16 (b / 16) → Joins p5 (b % 16) 2 y → byte2 p4 p5 ≡ b
byte2_back b p4 p5 x y h (small4, low4, high4) (small5, low5, high5) =
    let d = byte2_lem p4 p5 (omega arith) (omega arith) in omega arith

pub byte3_back :
    (b p5 p7 x y : ℕ)
    → b < 256
    → Joins p5 x 2 (b / 128)
    → Joins p7 (b % 4) 8 y
    → byte3 p5 (pos6 b) p7 ≡ b
byte3_back b p5 p7 x y h (small5, low5, high5) (small7, low7, high7) =
    let e = pos6_lem b h in
    let d = byte3_lem p5 (pos6 b) p7 (omega arith) (omega arith) (omega arith) in omega arith

pub byte4_back : (b p7 x : ℕ) → b < 256 → Joins p7 x 8 (b / 32) → byte4 p7 (pos8 b) ≡ b
byte4_back b p7 x h (small7, low7, high7) =
    let e = bit_and_31 b h in
    let d = byte4_lem p7 (pos8 b) (omega arith) (omega arith) in omega arith

pub no_padding : (i2 i4 i5 i7 : ℕ) → i7 < 32 → padding i2 i4 i5 i7 ≡ 0
unfolding padding
no_padding i2 i4 i5 i7 h = ground arith

pub padding_one : (i2 i4 i5 : ℕ) → i5 < 32 → padding i2 i4 i5 32 ≡ 1
unfolding padding
padding_one i2 i4 i5 h = ground arith

pub padding_two : (i2 i4 : ℕ) → i4 < 32 → padding i2 i4 32 32 ≡ 2
unfolding padding
padding_two i2 i4 h = ground arith

pub padding_three : (i2 : ℕ) → i2 < 32 → padding i2 32 32 32 ≡ 3
unfolding padding
padding_three i2 h = ground arith

pub padding_four : padding 32 32 32 32 ≡ 4
unfolding padding
padding_four = refl
