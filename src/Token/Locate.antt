-- ===== src/Token/Locate.antt =====
-- The position of an offset, described without a scanner: its line is one more than the newlines
-- before it, and its column is counted from the last of them.
use pawn_parser.Prelude.{
  ℕ, zero, suc, ◌+◌, ◌-◌, ◌≤◌, Bool, Bytes, arith, ◌==◌, if◌then◌else◌, get_or,
}
use pawn_parser.Token.Types.{Position}

-- Whether the byte at an offset ends a line.
abbrev pub newline_at : Bytes → ℕ → Bool
newline_at src n = get_or src n 0 == b'\n'

unfoldable pub line_number : Bytes → ℕ → ℕ
line_number src zero = 1
line_number src (suc n) = if newline_at src n then line_number src n + 1 else line_number src n

-- The offset at which the line of an offset begins.
unfoldable pub line_start : Bytes → ℕ → ℕ
line_start src zero = 0
line_start src (suc n) = if newline_at src n then suc n else line_start src n

abbrev pub position_at : Bytes → ℕ → Position
position_at src n = record { offset = n; line = line_number src n; col = n - line_start src n + 1 }

pub line_start-le : (src : Bytes) (n : ℕ) → line_start src n ≤ n
unfolding line_start
line_start-le src zero = omega arith
line_start-le src (suc n) = ground (arith, line_start-le src n)
