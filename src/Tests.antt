-- ===== src/Tests.antt =====
-- Runs of the model on small sources, and the theorems at concrete inputs.
mod Preprocess
mod Patterns
mod Sink
use pawn_parser.Prelude.{
  zero, suc, ◌+◌, ◌-◌, ◌^◌, ◌≤◌, ◌<◌, length, get_or, bytes_eq, inl, inr, Option, Bool-cases, ℕ,
  ◌⊎◌, ◌↔◌, List, [], ◌∷◌, map, ◌≡◌, refl, codes, Bytes, true, false, none, some, ◌==◌,
  if◌then◌else◌, arith,
}
use pawn_parser.Token.Kind.{Kind}
use pawn_parser.Token.Keyword.{lookup_keyword, kind_name}
use pawn_parser.Token.Keyword.Spelling.{is_keyword, lookup_keyword_iff}
use pawn_parser.Token.Types.{Position, Trivia, Token}
use pawn_parser.Token.Locate.{position_at}
use pawn_parser.Token.LineMap.{new_line_map, line_map_position}
use pawn_parser.Token.LineMap.Agrees.{line_map_position-position_at}
use pawn_parser.Lexer.Scanner.{new_scanner, here}
use pawn_parser.Lexer.Raw.{raw_tokens, scan_all, next_raw}
use pawn_parser.Lexer.Raw.Text.{token_texts, raw_tokens_texts}
use pawn_parser.Lexer.Raw.Tiling.{Tiles, span, raw_tokens-Tiles}
use pawn_parser.Lexer.Scans.{Scans}
use pawn_parser.Lexer.Scans.Next.{next_raw-Scans}
use pawn_parser.Lexer.Operators.{scan_operator}
use pawn_parser.Lexer.Operators.Maximal.{Maximal, Missing}
use pawn_parser.Lexer.Operators.Scan.{scan_operator-Maximal}
use pawn_parser.Lexer.Builder.{Pools, empty_builder, finish}
use pawn_parser.Lexer.Builder.Contents.{append_all, finish-append_all}
use pawn_parser.Lexer.Attach.{
  resolve, BuiltToken, BlockPools, Context, done, tokenize, tokenize_context,
}
use pawn_parser.Lexer.Attach.Relation.{Attached, spread_all}
use pawn_parser.Lexer.Attach.Loop.{Ends}
use pawn_parser.Lexer.Attach.Tokenize.{tokenize-Attached, tokenize-spread, tokenize_context-Ends}
use pawn_parser.Lexer.Syntax.{FlaggedToken, tokenize_syntax}
use pawn_parser.Lexer.Syntax.Summary.{summary}
use pawn_parser.Lexer.Syntax.Refines.{tokenize_syntax-summary}
use pawn_parser.Token.Compact.{each, CompactToken, CompactTrivia}
use pawn_parser.Lexer.Compact.{finish_compact}
use pawn_parser.Lexer.Compact.Ranges.{expand_token, expand_trivia}
use pawn_parser.Lexer.Compact.Expand.{kept_token, finish_compact-expand}

kinds_of_declaration :
    map (λ (t : Token). t.kind) (raw_tokens (codes "new x = 0x1F + 1.5e3; // a\n"))
    ≡ Kind.kw_new ∷ Kind.whitespace ∷ Kind.identifier ∷ Kind.whitespace ∷ Kind.assign
      ∷ Kind.whitespace ∷ Kind.int_literal ∷ Kind.whitespace ∷ Kind.plus ∷ Kind.whitespace
      ∷ Kind.float_literal ∷ Kind.semicolon ∷ Kind.whitespace ∷ Kind.comment ∷ Kind.newline
      ∷ Kind.eof ∷ []
unfolding raw_tokens
kinds_of_declaration = refl

kinds_of_strings :
    map (λ (t : Token). t.kind) (raw_tokens (codes "!\"a\\\"b\" '\\n' \"open\n>>>= %1 /* x"))
    ≡ Kind.packed_string ∷ Kind.whitespace ∷ Kind.char_literal ∷ Kind.whitespace ∷ Kind.unknown
      ∷ Kind.newline ∷ Kind.ushr_assign ∷ Kind.whitespace ∷ Kind.macro_param ∷ Kind.whitespace
      ∷ Kind.comment ∷ Kind.eof ∷ []
unfolding raw_tokens
kinds_of_strings = refl

abbrev pub sample : Bytes
sample = codes "stock f(x) // one\n{ return x >>> 2; }\n"

raw_tokens_texts_example : token_texts sample (raw_tokens sample) ≡ sample
raw_tokens_texts_example = raw_tokens_texts sample

raw_tokens-Tiles_example : Tiles sample 0 (map span (raw_tokens sample))
raw_tokens-Tiles_example = raw_tokens-Tiles sample

next_raw-Scans_example :
    Scans (new_scanner sample) (here (new_scanner sample)) (next_raw (new_scanner sample))
next_raw-Scans_example = next_raw-Scans (new_scanner sample) (omega arith)

scan_operator-Maximal_example :
    Maximal
      (new_scanner (codes ">>=1"))
      (scan_operator (here (new_scanner sample)) (new_scanner (codes ">>=1")))
    ⊎ Missing
        (new_scanner (codes ">>=1"))
        (scan_operator (here (new_scanner sample)) (new_scanner (codes ">>=1")))
scan_operator-Maximal_example =
    scan_operator-Maximal (here (new_scanner sample)) (new_scanner (codes ">>=1"))

line_map_position-position_at_example :
    line_map_position (new_line_map sample) 20 ≡ position_at sample 20
line_map_position-position_at_example =
    line_map_position-position_at sample 20 (omega arith) (omega arith)

lookup_keyword_iff_example :
    (lookup_keyword (codes "stock") ≡ some Kind.kw_stock)
    ↔ (is_keyword Kind.kw_stock ≡ true) × (kind_name Kind.kw_stock ≡ codes "stock")
lookup_keyword_iff_example = lookup_keyword_iff (codes "stock") Kind.kw_stock

-- The pool gives back one used block for the first block of a builder, and none later.
abbrev used_pool : Pools ℕ
used_pool n level = if n == 0 then some (7 ∷ 7 ∷ []) else none

finish-append_all_example :
    finish used_pool 0 (append_all used_pool 0 empty_builder (3 ∷ 1 ∷ 2 ∷ [])) ≡ 3 ∷ 1 ∷ 2 ∷ []
finish-append_all_example = finish-append_all used_pool 0 (3 ∷ 1 ∷ 2 ∷ [])

abbrev pub no_pools : BlockPools
no_pools = record { built = λ n level. none; trivia = λ n level. none }

tokenize-Attached_example :
    (ts : List Token) × (tokenize no_pools sample ≡ done ts) × Attached [] (scan_all sample) ts
tokenize-Attached_example = tokenize-Attached no_pools sample

tokenize-spread_example :
    (ts : List Token) × (tokenize no_pools sample ≡ done ts)
    × (spread_all ts ≡ map span (raw_tokens sample))
tokenize-spread_example = tokenize-spread no_pools sample

-- A context that is cancelled after 512 steps.
abbrev late : Context
late = record { at_start = false; cancellable = true; err = λ n. n == 512 }

tokenize_context-Ends_example :
    Ends
      ((late.at_start ≡ true) ⊎ ((n : ℕ) × (late.err n ≡ true)))
      (λ ts. tokenize no_pools sample ≡ done ts)
      (tokenize_context no_pools late sample)
tokenize_context-Ends_example = tokenize_context-Ends no_pools late sample

-- The syntax tokens of the sample stand for the same tokens.
abbrev no_flagged : Pools FlaggedToken
no_flagged n level = none

tokenize_syntax-summary_example :
    (ts : List Token) × (tokenize no_pools sample ≡ done ts)
    × (tokenize_syntax no_flagged sample ≡ some (map summary ts, new_line_map sample))
tokenize_syntax-summary_example = tokenize_syntax-summary no_flagged no_pools sample (omega arith)

abbrev at_three : Position
at_three = record { offset = 3; line = 1; col = 4 }

abbrev a_blank : List Trivia
a_blank =
    record {
      kind = Kind.whitespace;
      start = record { offset = 2; line = 1; col = 3 };
      end = at_three;
    }
    ∷ []

abbrev a_token : List BuiltToken
a_token =
    record {
      kind = Kind.identifier;
      start = at_three;
      end = record { offset = 5; line = 1; col = 6 };
      trivia = record { leading_start = 0; trailing_start = 1; trailing_end = 1 };
    }
    ∷ []

finish_compact-expand_example :
    (tokens : List Token) × (ks : List CompactToken) × (cs : List CompactTrivia) × (each
        (resolve a_blank)
        a_token
      ≡ some tokens)
    × (finish_compact true false a_blank a_token ≡ some (if false then tokens else [], ks, cs))
    × (map (expand_token cs) ks ≡ map (kept_token true) tokens)
    × (map expand_trivia cs ≡ (if true then a_blank else []))
finish_compact-expand_example =
    finish_compact-expand true false a_blank a_token (omega arith)
      ((omega arith, omega arith, omega arith), (omega arith, omega arith, omega arith), tt)
      (
        (omega arith, omega arith, omega arith),
        (omega arith, omega arith, omega arith),
        omega arith,
        omega arith,
        omega arith,
        tt,
      )

-- A range behind the trivia panics.
no_such_trivia : finish_compact false true [] a_token ≡ none
unfolding finish_compact
no_such_trivia = refl
