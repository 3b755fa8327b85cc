-- ===== src/Preprocess/Substitute.antt =====
-- preprocess/pattern.go: putting the captures of a match into the text of a macro, and the text of the
-- tokens that a pattern is matched against inside an expansion. An origin is of any type `O`: what
-- it is for a piece of the macro's text and for a capture are the closures of the source.
pub mod Text
pub mod Filled
use pawn_parser.Prelude.{
  ℕ, zero, suc, ◌+◌, ◌-◌, Bool, true, false, not, ◌&&◌, ◌||◌, List, [], ◌∷◌, ◌++◌, Bytes, Option,
  none, some, ltb, leb, ◌==◌, if◌then◌else◌, length, slice, take, drop, min,
}
use pawn_parser.Preprocess.Frame.{ByteRange}
use pawn_parser.Preprocess.Pattern.{is_decimal}

-- `replacementSegment`
pub record Segment (O : Type 0) : Type 0 where
  pub start : ℕ
  pub end : ℕ
  pub parent : O

-- `replacementText`
pub record Replacement (O : Type 0) : Type 0 where
  pub text : Bytes
  pub segments : List (Segment O)

abbrev pub no_replacement : {O : Type 0} → Replacement O
no_replacement = record { text = []; segments = [] }

-- `appendText`, which leaves out an empty text.
unfoldable pub append_text : {O : Type 0} → Bytes → O → Replacement O → Replacement O
append_text [] parent r = r
append_text (c ∷ cs) parent r = record {
  text = r.text ++ (c ∷ cs);
  segments =
      r.segments
      ++ (record { start = length r.text; end = length (r.text ++ (c ∷ cs)); parent = parent }
          ∷ []);
}

-- The capture of a label: the newest.
unfoldable pub capture_of : List (ℕ × ByteRange) → ℕ → Option ByteRange
capture_of [] label = none
capture_of ((key, range) ∷ args) label =
    let older = capture_of args label in if key == label then some range else older

-- A capture that lies within the input.
unfoldable pub usable : Bytes → Option ByteRange → Option ByteRange
usable input none = none
usable input (some range) =
    if leb range.start range.end && leb range.end (length input) then some range else none

module _ {O : Type 0} (body input : Bytes) (args : List (ℕ × ByteRange))
    (literal_origin : ℕ → ℕ → O) (capture_origin : ByteRange → O) where
  -- A piece of the macro's own text.
  abbrev pub append_literal : ℕ → ℕ → Replacement O → Replacement O
  append_literal start end r = append_text (slice body start end) (literal_origin start end) r

  -- What stands for a label at an index, or the label's own spelling.
  unfoldable pub append_capture : ℕ → Option ByteRange → Replacement O → Replacement O
  unfolding append_text
  append_capture index none r = append_literal index (index + 2) r
  append_capture index (some range) r =
      append_text (slice input range.start range.end) (capture_origin range) r

  abbrev pub range_of : ℕ → Option ByteRange
  range_of digit = usable input (capture_of args (digit - b'0'))

  -- The loop over the macro's text, of which the bytes from `index` on are given: whether it is in a
  -- string, and where the text that has not been copied begins.
  unfoldable pub substitute_loop : Bytes → ℕ → Bool → ℕ → Replacement O → Replacement O
  unfolding append_text append_capture capture_of usable
  substitute_loop [] index in_string literal_start r = append_literal literal_start (length body) r
  substitute_loop (c ∷ []) index in_string literal_start r =
      append_literal literal_start (length body) r
  substitute_loop (c ∷ d ∷ cs) index in_string literal_start r = elim (c == b'"') [
    | true ↦ substitute_loop (d ∷ cs) (index + 1) (not in_string) literal_start r
    | false ↦ elim (not in_string && c == b'%' && is_decimal d) [
      | true ↦
          substitute_loop cs (index + 2) in_string (index + 2)
            (append_capture index (range_of d) (append_literal literal_start index r))
      | false ↦ substitute_loop (d ∷ cs) (index + 1) in_string literal_start r
    ]
  ]

  -- `substituteMacroBody`
  unfoldable pub substitute_macro_body : Replacement O
  unfolding substitute_loop
  substitute_macro_body = substitute_loop body 0 false 0 no_replacement

-- What a token gives to the text that patterns are matched against.
pub record Piece : Type 0 where
  pub text : Bytes
  pub trailing : Bytes

-- `patternTokenInput`
pub record PatternInput : Type 0 where
  pub text : Bytes
  pub token_start : List ℕ
  pub token_end : List ℕ
  pub token_trailing_end : List ℕ

-- The bytes before the first line end, and whether there is one.
unfoldable pub to_line_end : Bytes → Bytes × Bool
to_line_end [] = ([], false)
to_line_end (c ∷ cs) =
    let (before, found) = to_line_end cs in
    if c == b'\r' || c == b'\n' then ([], true) else (c ∷ before, found)

-- `makePatternTokenInput`: it stops behind the first token whose trailing trivia has a line end.
unfoldable pub input_loop : List Piece → PatternInput → PatternInput
unfolding to_line_end
input_loop [] r = r
input_loop (t ∷ ts) r =
    let end = r.text ++ t.text in
    let trailed = end ++ (to_line_end t.trailing).0 in
    let next : PatternInput = record {
      text = trailed;
      token_start = r.token_start ++ (length r.text ∷ []);
      token_end = r.token_end ++ (length end ∷ []);
      token_trailing_end = r.token_trailing_end ++ (length trailed ∷ []);
    } in
    elim (to_line_end t.trailing).1 [ true ↦ next | false ↦ input_loop ts next ]

unfoldable pub make_pattern_token_input : List Piece → PatternInput
unfolding input_loop
make_pattern_token_input pieces =
    input_loop pieces
      (record { text = []; token_start = []; token_end = []; token_trailing_end = [] })

-- What a match up to `end` has consumed: how many tokens, how far into the last of them (if it ends
-- inside), how much of its trailing trivia, and whether it ends at a place that can be said so.
pub record Consumed : Type 0 where
  pub consumed : ℕ
  pub suffix_offset : Option ℕ
  pub trailing_consumed : ℕ
  pub aligned : Bool

abbrev whole : ℕ → ℕ → Bool → Consumed
whole n trailing aligned = record {
  consumed = n;
  suffix_offset = none;
  trailing_consumed = trailing;
  aligned = aligned;
}

-- The loop of `consumedTokens`, over the starts, the ends, and the ends of trailing trivia.
unfoldable pub consumed_loop : ℕ → List ℕ → List ℕ → List ℕ → ℕ → ℕ → Consumed
consumed_loop size (start ∷ starts) (stop ∷ stops) (trailing ∷ trailings) n end =
    let rest = consumed_loop size starts stops trailings (n + 1) end in
    if stop == end
    then whole (n + 1) 0 true
    else if ltb end stop
    then (if ltb start end
        then record {
          consumed = n + 1;
          suffix_offset = some (end - start);
          trailing_consumed = 0;
          aligned = true;
        }
        else whole n 0 (ltb 0 n && leb end start))
    else if leb end trailing
    then whole (n + 1) (end - stop) true
    else rest
consumed_loop size _ _ _ n end = whole n 0 (ltb 0 n && leb end size)

-- `consumedTokens`
unfoldable pub consumed_tokens : PatternInput → ℕ → Consumed
unfolding consumed_loop
consumed_tokens input end =
    consumed_loop (length input.text) input.token_start input.token_end input.token_trailing_end 0
      end
