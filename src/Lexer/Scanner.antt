-- ===== src/Lexer/Scanner.antt =====
-- lexer/scanner.go: the scanner's state and its primitive operations. `advance` past the last byte,
-- which panics in the source, is here a position past the end: a scanner that is still within the
-- source has never made that call.
use pawn_parser.Prelude.{
  ℕ, zero, suc, ◌+◌, Bool, true, false, Bytes, leb, ◌==◌, if◌then◌else◌, length, get_or,
}
use pawn_parser.Token.Kind.{Kind}
use pawn_parser.Token.Types.{Position}

pub record RawToken : Type 0 where
  pub kind : Kind
  pub start : Position
  pub end : Position

pub record Scanner : Type 0 where
  pub src : Bytes
  pub pos : ℕ
  pub line : ℕ
  pub col : ℕ

abbrev pub new_scanner : Bytes → Scanner
new_scanner src = record { src = src; pos = 0; line = 1; col = 1 }

abbrev pub here : Scanner → Position
here s = record { offset = s.pos; line = s.line; col = s.col }

abbrev pub at_end : Scanner → Bool
at_end s = leb (length s.src) s.pos

-- 0 behind the last byte
abbrev pub peek : Scanner → ℕ
peek s = get_or s.src s.pos 0

abbrev pub peek_at : Scanner → ℕ → ℕ
peek_at s offset = get_or s.src (s.pos + offset) 0

unfoldable pub advance : Scanner → Scanner
advance s =
    let c = get_or s.src s.pos 0 in
    record s {
      pos = s.pos + 1;
      line = if c == b'\n' then s.line + 1 else s.line;
      col = if c == b'\n' then 1 else s.col + 1;
    }

-- `for range n { s.advance() }`
unfoldable pub advance_by : ℕ → Scanner → Scanner
advance_by zero s = s
advance_by (suc n) s = advance_by n (advance s)

-- `for test(s) { s.advance() }`, on fuel
unfoldable pub advance_while : ℕ → (Scanner → Bool) → Scanner → Scanner
advance_while zero test s = s
advance_while (suc fuel) test s = elim (test s) [
  | true ↦ advance_while fuel test (advance s)
  | false ↦ s
]

-- One round for each byte of the source is enough for every loop of the scanner.
abbrev pub rounds : Scanner → ℕ
rounds s = length s.src

-- `rawToken{kind: kind, start: start, end: s.here()}`
abbrev pub emit : Kind → Position → Scanner → RawToken × Scanner
emit kind start s = (record { kind = kind; start = start; end = here s }, s)
