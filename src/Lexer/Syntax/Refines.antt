-- ===== src/Lexer/Syntax/Refines.antt =====
-- `TokenizeSyntax` against `Tokenize`.
use pawn_parser.Prelude.{
  ℕ, ◌+◌, ◌≤◌, ◌<◌, ◌^◌, ◌≡◌, refl, List, [], ◌∷◌, map, Bytes, none, some, arith, length,
}
use pawn_parser.Token.Types.{Trivia, Token}
use pawn_parser.Token.Compact.{each, compact_uint}
use pawn_parser.Token.LineMap.{new_line_map}
use pawn_parser.Lexer.Scanner.{RawToken, new_scanner}
use pawn_parser.Lexer.Raw.Tiling.{Tiles, finish, next, scan_all-Tiles}
use pawn_parser.Lexer.Builder.{Pools, empty_builder}
use pawn_parser.Lexer.Builder.Contents.{finish-contents}
use pawn_parser.Lexer.Attach.{BlockPools, done, tokenize}
use pawn_parser.Lexer.Attach.Feeds.{fresh, scan_all-Feeds, length-scan_all}
use pawn_parser.Lexer.Attach.Relation.{Trailing, stop, newline, more, Attached, lead, last, token}
use pawn_parser.Lexer.Attach.Tokenize.{tokenize-Attached}
use pawn_parser.Lexer.Syntax.{
  FlaggedToken, blank_flagged, syntax_token, build_syntax_tokens, finish_syntax, tokenize_syntax,
}
use pawn_parser.Lexer.Syntax.Summary.{summary}
use pawn_parser.Lexer.Syntax.Loop.{flagged_of, syntax_loop-Collects}

-- The offsets of all raw tokens, or all tokens, are at most `n`.
abbrev RawsWithin : ℕ → List RawToken → Type 0
RawsWithin n [] = Unit
RawsWithin n (r ∷ rs) = (r.start.offset ≤ n) × (r.end.offset ≤ n) × RawsWithin n rs

abbrev TokensWithin : ℕ → List Token → Type 0
TokensWithin n [] = Unit
TokensWithin n (t ∷ ts) = (t.start.offset ≤ n) × (t.end.offset ≤ n) × TokensWithin n ts

Tiles-RawsWithin :
    {src : Bytes} {n : ℕ} {rs : List RawToken} → Tiles src n rs → RawsWithin (length src) rs
Tiles-RawsWithin (finish {n} e k s t) = rw (s, t) (omega arith, omega arith, tt)
Tiles-RawsWithin (next {n} {m} h i k s t rest) =
    rw (s, t) (omega arith, omega arith, Tiles-RawsWithin rest)

Trailing-RawsWithin :
    (n : ℕ) {rs rest : List RawToken} {ts : List Trivia}
    → Trailing rs ts rest
    → RawsWithin n rs
    → RawsWithin n rest
Trailing-RawsWithin n (stop h) w = w
Trailing-RawsWithin n (newline h k) w = w.2
Trailing-RawsWithin n (more h k t) w = Trailing-RawsWithin n t w.2

Attached-TokensWithin :
    (n : ℕ) {leading : List Trivia} {rs : List RawToken} {ts : List Token}
    → Attached leading rs ts
    → RawsWithin n rs
    → TokensWithin n ts
Attached-TokensWithin n (lead h a) w = Attached-TokensWithin n a w.2
Attached-TokensWithin n (last h e) w = w
Attached-TokensWithin n (token h e t a) w =
    (w.0, w.1, Attached-TokensWithin n a (Trailing-RawsWithin n t w.2))

pub compact_uint-fits : (n : ℕ) → n < 2 ^ 32 → compact_uint n ≡ some n
unfolding compact_uint
compact_uint-fits n h = ground arith

syntax_token-summary :
    (n : ℕ) (t : Token)
    → n < 2 ^ 32
    → t.start.offset ≤ n
    → t.end.offset ≤ n
    → syntax_token (flagged_of t) ≡ some (summary t)
unfolding syntax_token
syntax_token-summary n t h s e =
    rw
      (compact_uint-fits t.start.offset (omega arith), compact_uint-fits t.end.offset (omega arith))
      refl

each-summary :
    (n : ℕ) (ts : List Token)
    → n < 2 ^ 32
    → TokensWithin n ts
    → each syntax_token (map flagged_of ts) ≡ some (map summary ts)
unfolding each
each-summary n [] h w = refl
each-summary n (t ∷ ts) h w = rw (syntax_token-summary n t h w.0 w.1, each-summary n ts h w.2) refl

-- For a source of less than 2 ^ 32 bytes, `TokenizeSyntax` ends, does not panic, and returns the line
-- map of the source and, for each token of `Tokenize`, its kind, its offsets, and for its leading
-- and for its trailing trivia whether there is any and whether a newline is among it.
pub tokenize_syntax-summary :
    (pools : Pools FlaggedToken) (blocks : BlockPools) (src : Bytes)
    → length src < 2 ^ 32
    → (ts : List Token) × (tokenize blocks src ≡ done ts)
      × (tokenize_syntax pools src ≡ some (map summary ts, new_line_map src))
unfolding tokenize_syntax build_syntax_tokens finish_syntax
tokenize_syntax-summary pools blocks src h =
    let (ts, e, a) = tokenize-Attached blocks src in
    let c =
      syntax_loop-Collects pools (length src + 1) (length src + 1) none (new_scanner src)
        empty_builder a (fresh (scan_all-Feeds src)) (refl, refl) (length-scan_all src)
        (length-scan_all src) in
    let fin : finish_syntax pools c.builder ≡ some (map summary ts) =
      rw (finish-contents pools blank_flagged c.builder c.filled, c.holds)
        (each-summary (length src) ts h
          (Attached-TokensWithin (length src) a (Tiles-RawsWithin (scan_all-Tiles src)))) in
    (ts, e, rw (c.ends, fin) refl)
