-- ===== src/Backend/Operations/Ranges.antt =====
-- The ranges of the integer fields, integer_field_ranges of backend/operations.py.
use django_clickhouse_backen.Prelude.{ℕ, suc, ◌-◌, ◌^◌, ◌<◌, ◌≡◌, ◌↔◌, refl, arith}
use django_clickhouse_backen.Prelude.Int.{ℤ, pos, negsuc, ◌≤ℤ◌, shift_left}

-- The keys of the dictionary.
pub data IntegerField : Type 0 where
  small_integer_field integer_field big_integer_field : IntegerField
  positive_big_integer_field positive_small_integer_field positive_integer_field : IntegerField
  small_auto_field auto_field big_auto_field : IntegerField
  int8_field int16_field int32_field int64_field int128_field int256_field : IntegerField
  uint8_field uint16_field uint32_field uint64_field uint128_field uint256_field : IntegerField

-- -1 ^ z
abbrev pub xor_ones : ℤ → ℤ
xor_ones (pos n) = negsuc n
xor_ones (negsuc n) = pos n

-- (-1 << k, -1 ^ (-1 << k)) and (0, -1 ^ (-1 << k))
pub signed_range : ℕ → ℤ × ℤ
signed_range k = (shift_left (negsuc 0) k, xor_ones (shift_left (negsuc 0) k))

pub unsigned_range : ℕ → ℤ × ℤ
unsigned_range k = (pos 0, xor_ones (shift_left (negsuc 0) k))

pub integer_field_ranges : IntegerField → ℤ × ℤ
unfolding signed_range unsigned_range
integer_field_ranges small_integer_field = (negsuc 32767, pos 32767)
integer_field_ranges integer_field = (negsuc 2147483647, pos 2147483647)
integer_field_ranges big_integer_field = (negsuc 9223372036854775807, pos 9223372036854775807)
integer_field_ranges positive_big_integer_field = (pos 0, pos 18446744073709551615)
integer_field_ranges positive_small_integer_field = (pos 0, pos 65535)
integer_field_ranges positive_integer_field = (pos 0, pos 4294967295)
integer_field_ranges small_auto_field = (negsuc 9223372036854775807, pos 9223372036854775807)
integer_field_ranges auto_field = (negsuc 9223372036854775807, pos 9223372036854775807)
integer_field_ranges big_auto_field = (negsuc 9223372036854775807, pos 9223372036854775807)
integer_field_ranges int8_field = signed_range 7
integer_field_ranges int16_field = signed_range 15
integer_field_ranges int32_field = signed_range 31
integer_field_ranges int64_field = signed_range 63
integer_field_ranges int128_field = signed_range 127
integer_field_ranges int256_field = signed_range 255
integer_field_ranges uint8_field = unsigned_range 8
integer_field_ranges uint16_field = unsigned_range 16
integer_field_ranges uint32_field = unsigned_range 32
integer_field_ranges uint64_field = unsigned_range 64
integer_field_ranges uint128_field = unsigned_range 128
integer_field_ranges uint256_field = unsigned_range 256

-- The integer type of ClickHouse that stands behind a field.
pub data Width : Type 0 where
  signed unsigned : ℕ → Width

pub width : IntegerField → Width
width small_integer_field = signed 16
width integer_field = signed 32
width big_integer_field = signed 64
width positive_big_integer_field = unsigned 64
width positive_small_integer_field = unsigned 16
width positive_integer_field = unsigned 32
width small_auto_field = signed 64
width auto_field = signed 64
width big_auto_field = signed 64
width int8_field = signed 8
width int16_field = signed 16
width int32_field = signed 32
width int64_field = signed 64
width int128_field = signed 128
width int256_field = signed 256
width uint8_field = unsigned 8
width uint16_field = unsigned 16
width uint32_field = unsigned 32
width uint64_field = unsigned 64
width uint128_field = unsigned 128
width uint256_field = unsigned 256

-- The numbers of so many bits, in two's complement where they have a sign.
pub Fits : Width → ℤ → Type 0
Fits (signed w) (pos n) = n < 2 ^ (w - 1)
Fits (signed w) (negsuc n) = n < 2 ^ (w - 1)
Fits (unsigned w) (pos n) = n < 2 ^ w
Fits (unsigned w) (negsuc n) = ⊥

signed-Fits :
    (w top : ℕ) (z : ℤ)
    → 2 ^ (w - 1) ≡ suc top
    → ((negsuc top ≤ℤ z) × (z ≤ℤ pos top)) ↔ Fits (signed w) z
unfolding Fits
signed-Fits w top (pos n) e = ground arith
signed-Fits w top (negsuc n) e = ground arith

unsigned-Fits :
    (w top : ℕ) (z : ℤ) → 2 ^ w ≡ suc top → ((pos 0 ≤ℤ z) × (z ≤ℤ pos top)) ↔ Fits (unsigned w) z
unfolding Fits
unsigned-Fits w top (pos n) e = ground arith
unsigned-Fits w top (negsuc n) e = ground arith

-- The range of each field holds exactly the integers that the bits of its type can hold.
pub integer_field_ranges-Fits :
    (f : IntegerField) (z : ℤ)
    → (((integer_field_ranges f).0 ≤ℤ z) × (z ≤ℤ (integer_field_ranges f).1)) ↔ Fits (width f) z
unfolding integer_field_ranges width shift_left
integer_field_ranges-Fits small_integer_field z = signed-Fits 16 32767 z refl
integer_field_ranges-Fits integer_field z = signed-Fits 32 2147483647 z refl
integer_field_ranges-Fits big_integer_field z = signed-Fits 64 9223372036854775807 z refl
integer_field_ranges-Fits positive_big_integer_field z =
    unsigned-Fits 64 18446744073709551615 z refl
integer_field_ranges-Fits positive_small_integer_field z = unsigned-Fits 16 65535 z refl
integer_field_ranges-Fits positive_integer_field z = unsigned-Fits 32 4294967295 z refl
integer_field_ranges-Fits small_auto_field z = signed-Fits 64 9223372036854775807 z refl
integer_field_ranges-Fits auto_field z = signed-Fits 64 9223372036854775807 z refl
integer_field_ranges-Fits big_auto_field z = signed-Fits 64 9223372036854775807 z refl
integer_field_ranges-Fits int8_field z = signed-Fits 8 127 z refl
integer_field_ranges-Fits int16_field z = signed-Fits 16 32767 z refl
integer_field_ranges-Fits int32_field z = signed-Fits 32 2147483647 z refl
integer_field_ranges-Fits int64_field z = signed-Fits 64 9223372036854775807 z refl
integer_field_ranges-Fits int128_field z =
    signed-Fits 128 170141183460469231731687303715884105727 z refl
integer_field_ranges-Fits int256_field z =
    signed-Fits 256 57896044618658097711785492504343953926634992332820282019728792003956564819967 z
      refl
integer_field_ranges-Fits uint8_field z = unsigned-Fits 8 255 z refl
integer_field_ranges-Fits uint16_field z = unsigned-Fits 16 65535 z refl
integer_field_ranges-Fits uint32_field z = unsigned-Fits 32 4294967295 z refl
integer_field_ranges-Fits uint64_field z = unsigned-Fits 64 18446744073709551615 z refl
integer_field_ranges-Fits uint128_field z =
    unsigned-Fits 128 340282366920938463463374607431768211455 z refl
integer_field_ranges-Fits uint256_field z =
    unsigned-Fits 256 115792089237316195423570985008687907853269984665640564039457584007913129639935
      z refl
