-- ===== src/Lib.antt =====
-- A model of the lexer of the Pawn parser library (packages token and lexer), of the conditions, the
-- macro table, the conditional directives and the macro patterns of its preprocessor (package
-- preprocess), of its file sets and of tables of its compact trees, and their theorems.
--
-- The library tokenizes Pawn source. `token` holds the kinds of token, the keyword table, positions,
-- tokens with their trivia, and the map from offsets to lines. `lexer` holds a scanner over the
-- bytes of the source, the switch that scans one raw token, and the loops that collect raw tokens
-- and attach whitespace and comments to the tokens they stand beside.
--
-- Token/Kind, Token/Keyword, Token/Types: token/token.go. Kinds are a data type with the constants'
--   values in `ordinal`; maps are association lists; a nil origin is an empty chain.
-- Token/LineMap: token/line_map.go. `sort.Search` is the binary search of Go's library.
-- Token/Locate: a description of lines and columns that no code is involved in.
-- Lexer/Scanner: the state and primitive operations of lexer/scanner.go. Bytes are numbers.
-- Lexer/Words, Lexer/Literals, Lexer/Operators: the scans of lexer/scanner.go,
--   lexer/words_numbers.go and lexer/literals_operators.go, one function for each.
-- Lexer/Raw: `nextRaw` (lexer/scanner.go) and `RawTokens` (lexer/lexer.go).
-- Lexer/Builder: the block builders of lexer/lexer.go. What `sync.Pool` answers is a parameter, any
--   function at all: a used block with any contents, or nothing.
-- Lexer/Attach: `buildTokensWithContext`, `Tokenize` and `TokenizeContext`. When `ctx.Err` answers
--   with an error is a parameter.
-- Lexer/Syntax: `TokenizeSyntax`, and in Token/Compact the records of token/compact.go it returns.
-- Lexer/Compact: `finishCompact` and `TokenizeCompact` with its variants.
-- Source: the file sets of source.go.
-- Preprocess/Macros: the macro table (preprocess/macro.go), tokens with their text
--   (preprocess/ptok.go), and `tokenizeBody` (preprocess/directives.go).
-- Preprocess/Values, Preprocess/Int64, Preprocess/Eval, Preprocess/IfExpr: the evaluator of the
--   conditions of `#if` (preprocess/ifexpr.go). A value is the bit pattern of an int64. What the engine knows of the
--   declarations before a condition is a record of functions, for a later module to fill.
--
-- Preprocess/Frame: the tokens of a file as the engine walks over them (preprocess/engine.go), and the
--   codes of preprocess/diagnostic.go. The top of the stack of conditionals is first.
-- Preprocess/Conditionals: the handlers of `#if`, `#elseif`, `#else` and `#endif`
--   (preprocess/directives.go), for any evaluator of conditions. What else the engine has is a world
--   of any type; text acts on it, and sees and sets whether the engine is truncated.
--   Conditionals/Structured describes nested conditionals as trees.
-- Preprocess/Pattern, Preprocess/Comments, Preprocess/Substitute: preprocess/pattern.go: matching a
--   macro's pattern; the text it is matched against; and the text that replaces a match. Where an
--   origin stands in a segment is any value.
-- Sink/Links, Sink/Sparse: the children and fields of nodes in compact_sink.go, in slots and lists, and
--   the errors and trivia that few nodes have. Sink/Nodes, Sink/Build: the sink with its operations,
--   marks and rewinds. Sink/Tree: the compact tree made from it (compact_sink.go, compact.go). The
--   search for the nodes that a root reaches has a round for the root and one for each edge.
-- Rebase: the shift of offsets across an edit in rebase.go.
--
-- A function that changes the scanner returns the new one. `advance` at the end of the source, which
-- would panic, moves the position past the end, so that a scanner within its source shows that no
-- such call was made. Loops over the source run on fuel: a round for each byte, and one more where
-- the loop has a round at the end. Parsers of conditions have a round for each token, and a guard of
-- names keeps each name from being entered inside itself: fuel for the names that stand for tokens,
-- and one more, is enough. A panic is `none`, or `panicked` where a run can also be cancelled.
--
-- Not modelled are the parser over the tokens; of the preprocessor the other directives, the expansion
-- of macros with its limits, includes, declarations, listings and the reuse of results; the comparison
-- of grammars before a rebase, reparsing, and the expansion of compact trees. The arenas of the sinks
-- hold lists only. `tree` panics, as `none`, where a number does not fit into the 32 bits of
-- `compactUint`. The other operations of the sink bound nothing: the count of a node's children does
-- not wrap around, and a node that does not exist is read as a blank one, where the source panics;
-- its callers hand over numbers that `Store` returned.
pub mod Prelude
pub mod Token
pub mod Lexer
pub mod Source
pub mod Preprocess
pub mod Sink
pub mod Rebase
mod Tests
