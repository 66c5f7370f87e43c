-- ===== src/Storage/Half.antt =====
-- float_to_f16 and f16_to_float of src/storage/index_file.cpp, on the bits of the numbers. The
-- operands of each `|` share no bit, so it is a sum.
use gogol.Prelude.{ℕ, ◌+◌, ◌-◌, ◌*◌, ◌/◌, ◌%◌, ◌^◌, ◌<◌, ◌≡◌, arith, leb, ◌==◌, if◌then◌else◌}

-- The exponent is compared before the bias of 127 - 15 is taken off, which may make it negative.
unfoldable pub float_to_f16 : ℕ → ℕ
float_to_f16 x =
    let sign = x / 2 ^ 31 % 2 * 0x8000 in
    let exp = x / 2 ^ 23 % 256 in
    let mant = x % 2 ^ 23 in
    if leb exp 112
    then sign
    else if leb 143 exp
    then sign + 0x7C00
    else sign + (exp - 112) * 1024 + mant / 2 ^ 13

unfoldable pub f16_to_float : ℕ → ℕ
f16_to_float h =
    let sign = h / 2 ^ 15 % 2 * 2 ^ 31 in
    let exp = h / 2 ^ 10 % 32 in
    let mant = h % 1024 in
    if exp == 0
    then sign
    else sign + (if exp == 31 then 255 else exp + 112) * 2 ^ 23 + mant * 2 ^ 13

-- A half-precision number comes back from single precision: zeros and subnormals as the zero of
-- their sign, infinities and NaNs as the infinity of their sign, every other number as itself.
pub float_to_f16-f16_to_float :
    (h : ℕ)
    → h < 2 ^ 16
    → float_to_f16 (f16_to_float h) ≡ (
        if h / 2 ^ 10 % 32 == 0
        then h / 2 ^ 15 * 2 ^ 15
        else if h / 2 ^ 10 % 32 == 31
        then h / 2 ^ 15 * 2 ^ 15 + 0x7C00
        else h)
unfolding float_to_f16 f16_to_float
float_to_f16-f16_to_float h b = ground arith
