-- ===== src/Lexer/Locates.antt =====
-- A scanner that has only advanced knows the line and column of its offset.
use native.Mathlib.Numerals.{add-one}
use pawn_parser.Prelude.{◌+◌, ◌≡◌, refl, Bytes, arith}
use pawn_parser.Token.Locate.{line_number, line_start, line_start-le, position_at}
use pawn_parser.Lexer.Scanner.{Scanner, new_scanner, here, advance}
use pawn_parser.Lexer.Moves.{Moves, stay, move}

pub record Located (s : Scanner) : Type 0 where
  pub line_is : s.line ≡ line_number s.src s.pos
  pub col_is : s.col + line_start s.src s.pos ≡ s.pos + 1

pub new_scanner-Located : (src : Bytes) → Located (new_scanner src)
unfolding line_number line_start
new_scanner-Located src = record { line_is = refl; col_is = omega arith }

advance-Located : (s : Scanner) → Located s → Located (advance s)
unfolding advance line_number line_start
advance-Located s h = simp add-one (ground arith)

pub Moves-Located : {s t : Scanner} → Moves s t → Located s → Located t
Moves-Located stay h = h
Moves-Located (move {t} m b) h = advance-Located t (Moves-Located m h)

pub here-position_at : (s : Scanner) → Located s → here s ≡ position_at s.src s.pos
here-position_at s h = ground (arith, line_start-le s.src s.pos)
