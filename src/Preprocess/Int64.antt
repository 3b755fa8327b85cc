-- ===== src/Preprocess/Int64.antt =====
-- Go's operators on int64, as preprocess/ifexpr.go uses them. A value is its bit pattern, a number
-- below 2 ^ 64; the patterns from 2 ^ 63 on are the negative values.
use Prim.Native.Nat.{bit_and, bit_or, bit_xor}
use pawn_parser.Prelude.{
  ℕ, ◌+◌, ◌-◌, ◌*◌, ◌/◌, ◌%◌, ◌^◌, Bool, not, ◌||◌, ◌&&◌, ltb, leb, if◌then◌else◌,
}

-- Shifted by 2 ^ 63, the patterns are in the order of the values.
abbrev biased : ℕ → ℕ
biased a = (a + 2 ^ 63) % 2 ^ 64

abbrev pub negative : ℕ → Bool
negative a = leb (2 ^ 63) a

abbrev pub bool_to_int : Bool → ℕ
bool_to_int b = if b then 1 else 0

abbrev pub negate : ℕ → ℕ
negate a = (2 ^ 64 - a) % 2 ^ 64

abbrev pub complement : ℕ → ℕ
complement a = 2 ^ 64 - 1 - a

abbrev pub magnitude : ℕ → ℕ
magnitude a = if negative a then 2 ^ 64 - a else a

abbrev pub signed : Bool → ℕ → ℕ
signed minus a = if minus then negate a else a

abbrev pub less : ℕ → ℕ → Bool
less a b = ltb (biased a) (biased b)

abbrev pub plus : ℕ → ℕ → ℕ
plus a b = (a + b) % 2 ^ 64

abbrev pub minus : ℕ → ℕ → ℕ
minus a b = (a + (2 ^ 64 - b)) % 2 ^ 64

abbrev pub times : ℕ → ℕ → ℕ
times a b = a * b % 2 ^ 64

-- Division rounds towards zero; the smallest value divided by -1 is itself.
abbrev pub quotient : ℕ → ℕ → ℕ
quotient a b =
    signed (negative a && not (negative b) || negative b && not (negative a))
      (magnitude a / magnitude b)

-- The remainder has the sign of the dividend.
abbrev pub remainder : ℕ → ℕ → ℕ
remainder a b = signed (negative a) (magnitude a % magnitude b)

-- The count is unsigned; a count of 64 or more shifts every bit out.
abbrev pub shift_left : ℕ → ℕ → ℕ
shift_left a n = if ltb n 64 then a * 2 ^ min64 n % 2 ^ 64 else 0
  where
    min64 : ℕ → ℕ
    min64 n = if ltb n 64 then n else 0

-- Shifting to the right keeps the sign.
abbrev pub shift_right : ℕ → ℕ → ℕ
shift_right a n = if negative a then complement (down (complement a)) else down a
  where
    down : ℕ → ℕ
    down a = if ltb n 64 then a / 2 ^ (if ltb n 64 then n else 0) else 0

abbrev pub bits_or : ℕ → ℕ → ℕ
bits_or a b = bit_or a b

abbrev pub bits_xor : ℕ → ℕ → ℕ
bits_xor a b = bit_xor a b

abbrev pub bits_and : ℕ → ℕ → ℕ
bits_and a b = bit_and a b
