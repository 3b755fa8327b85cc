-- ===== src/Tests/Patterns.antt =====
-- Patterns, conditionals and tables of children at concrete inputs.
use pawn_parser.Prelude.{
  ℕ, zero, suc, ◌+◌, ◌-◌, ◌<◌, ◌≡◌, ◌≢◌, refl, sym, ◌∙◌, true, false, List, [], ◌∷◌, ◌++◌, Bytes,
  codes, some, arith, length, if◌then◌else◌, map,
}
use pawn_parser.Token.Kind.{Kind}
use pawn_parser.Token.Types.{Token}
use pawn_parser.Preprocess.Frame.{ByteRange, Frame, top_active, current_active}
use pawn_parser.Preprocess.Conditionals.{Engine, Evaluator, Branch}
use pawn_parser.Preprocess.Conditionals.Structured.{
  Seen, seen, skip, Site, on_if, on_else, on_endif, Blocks, done, conditional, elseif, otherwise,
  flatten, run, meaning,
}
use pawn_parser.Preprocess.Conditionals.Refines.{run-meaning}
use pawn_parser.Preprocess.Pattern.{match_pattern}
use pawn_parser.Preprocess.Pattern.Bounds.{Decides, match_pattern-Decides}
use pawn_parser.Preprocess.Comments.{strip_pattern_comments, source_logical_line_end}
use pawn_parser.Preprocess.Comments.Parts.{Strips}
use pawn_parser.Preprocess.Comments.Masks.{strip_pattern_comments-Strips}
use pawn_parser.Preprocess.Comments.Lines.{LogicalLine, source_logical_line_end-LogicalLine}
use pawn_parser.Preprocess.Substitute.{substitute_macro_body}
use pawn_parser.Preprocess.Substitute.Text.{Tiled}
use pawn_parser.Preprocess.Substitute.Filled.{Filled, substitute_macro_body-Filled}
use pawn_parser.Sink.Links.{Slot, Links, blank_slot, slot_at, owned, items, push}
use pawn_parser.Sink.Links.Wellformed.{IsLinks}

abbrev range : ℕ → ℕ → ByteRange
range start end = record { start = start; end = end }

abbrev call : Bytes
call = codes "f(a, [b,c]) x"

abbrev pattern : Bytes
pattern = codes "f(%0,%1)"

abbrev captures : List (ℕ × ByteRange)
captures = (1, range 4 10) ∷ (0, range 2 3) ∷ []

call_matches :
    match_pattern call pattern true 92 ≡ some (some (record { end = 11; args = captures }))
unfolding match_pattern
call_matches = refl

match_pattern-Decides_example : Decides call pattern true 92 (match_pattern call pattern true 92)
match_pattern-Decides_example = match_pattern-Decides call pattern true 92

comments_stripped :
    strip_pattern_comments (codes "a /* b */ \"/*\" // c") 92 ≡ codes "a         \"/*\" \n"
unfolding strip_pattern_comments
comments_stripped = refl

strip_pattern_comments-Strips_example :
    Strips 92
      (codes "a /* b */ \"/*\" // c")
      (strip_pattern_comments (codes "a /* b */ \"/*\" // c") 92)
strip_pattern_comments-Strips_example =
    strip_pattern_comments-Strips (codes "a /* b */ \"/*\" // c") 92

abbrev two_lines : Bytes
two_lines = codes "f(a, \\\nb)\nc"

line_end_value : source_logical_line_end two_lines 1 ≡ 10
unfolding source_logical_line_end
line_end_value = refl

source_logical_line_end-LogicalLine_example :
    LogicalLine two_lines 1 (source_logical_line_end two_lines 1)
source_logical_line_end-LogicalLine_example = source_logical_line_end-LogicalLine two_lines 1

abbrev body : Bytes
body = codes "g(%1, \"%0\", %0, %2)"

abbrev literal_name : ℕ → ℕ → ℕ
literal_name start end = start

abbrev capture_name : ByteRange → ℕ
capture_name r = r.start + 100

substituted :
    (substitute_macro_body body call captures literal_name capture_name).text
    ≡ codes "g( [b,c], \"%0\", a, %2)"
unfolding substitute_macro_body
substituted = refl

substitute_macro_body-Filled_example :
    Filled call captures false body
      (substitute_macro_body body call captures literal_name capture_name).text
    × Tiled 0
        (length (substitute_macro_body body call captures literal_name capture_name).text)
        (substitute_macro_body body call captures literal_name capture_name).segments
substitute_macro_body-Filled_example =
    substitute_macro_body-Filled body call captures literal_name capture_name

-- Conditions hold when they have a token, and text adds its number to the world, unless the output is
-- truncated.
abbrev eval : Evaluator (List ℕ)
eval w source rest = some (length rest)

abbrev act : ℕ → Seen (List ℕ) → Seen (List ℕ)
act a (true, w) = (true, w)
act a (false, w) = (false, w ++ (a ∷ []))

abbrev token_from : ℕ → Token
token_from i = record {
  kind = Kind.hash;
  start = record { offset = i; line = 1; col = 1 };
  end = record { offset = i + 1; line = 1; col = 2 };
  leading_trivia = [];
  trailing_trivia = [];
  origin = [];
}

abbrev holding : ℕ → Site
holding i = record { hash = token_from i; rest = token_from (i + 1) ∷ [] }

abbrev failing : ℕ → Site
failing i = record { hash = token_from i; rest = [] }

abbrev engine : Engine (List ℕ)
engine = record {
  world = [];
  branches = [];
  diags = [];
  truncated = false;
  depth_limit_warned = false;
}

abbrev frame : Frame
frame = record {
  file_index = 0;
  source = [];
  toks = [];
  pos = 0;
  line_start = true;
  cond_stack = [];
  endinput = false;
}

-- A conditional whose second branch holds, with one that is nested too deep in it.
abbrev nested : Blocks ℕ
nested =
    conditional (failing 1) (Blocks.text 1 done)
      (elseif (holding 3)
        (Blocks.text 2 (
          conditional (holding 5) (Blocks.text 3 done)
            (otherwise (token_from 7) (Blocks.text 4 done) (token_from 8)) (Blocks.text 5 done)))
        (otherwise (token_from 9) (Blocks.text 6 done) (token_from 10)))
      (Blocks.text 7 done)

nested_value : seen (run eval 1 act (flatten nested) (engine, frame)).0 ≡ (true, 2 ∷ [])
unfolding run flatten top_active
nested_value = refl

run-meaning_example :
    ((run eval 1 act (flatten nested) (engine, frame)).1.cond_stack ≡ frame.cond_stack)
    × (seen (run eval 1 act (flatten nested) (engine, frame)).0 ≡ (
        if current_active frame
        then meaning eval 1 act frame.source (1 - length frame.cond_stack) nested (seen engine)
        else skip eval 1 act (1 - length frame.cond_stack) nested (seen engine)))
run-meaning_example = run-meaning eval 1 act nested engine frame

-- An `#else` that is too deep moves the end of the first branch of all, which was closed at 12.
deep_else_moves_first_body :
    map
      (λ (b : Branch). b.body_span.end)
      (run eval 1 act
        (on_if (holding 10)
          ∷ on_endif (token_from 12)
          ∷ on_if (holding 20)
          ∷ on_if (holding 30)
          ∷ on_else (token_from 32)
          ∷ on_endif (token_from 34)
          ∷ on_endif (token_from 36)
          ∷ [])
        (engine, frame)).0.branches
    ≡ 32 ∷ 36 ∷ []
unfolding run top_active
deep_else_moves_first_body = refl

-- The node 1 has two children, and the nodes 0 and 2 have none.
abbrev pub pair_slot : Slot ℕ
pair_slot = record { first = 5; second = 6; count = 2; spill = 0 }

abbrev pub links : Links ℕ
links = record { owner = 0 ∷ 1 ∷ 0 ∷ []; slots = blank_slot 0 ∷ pair_slot ∷ []; spills = [] ∷ [] }

pub links-IsLinks : IsLinks 0 links
links-IsLinks = record {
  bounded = bounded;
  apart = λ n m p e. apart n m p e;
  spilled = λ i h c. absurd (few i h c);
  spills_apart = λ i j h k c d e. absurd (few i h c);
}
  where
    bounded : (n : ℕ) → owned 0 links n < 2
    bounded zero = omega arith
    bounded (suc zero) = omega arith
    bounded (suc (suc zero)) = omega arith
    bounded (suc (suc (suc n))) = omega arith

    none_else : (n : ℕ) → owned 0 links n ≢ 0 → n ≡ 1
    none_else zero p = absurd (p refl)
    none_else (suc zero) p = refl
    none_else (suc (suc zero)) p = absurd (p refl)
    none_else (suc (suc (suc n))) p = absurd (p refl)

    apart : (n m : ℕ) → owned 0 links n ≢ 0 → owned 0 links n ≡ owned 0 links m → n ≡ m
    apart n m p e = none_else n p ∙ sym (none_else m (λ q. p (e ∙ q)))

    few : (i : ℕ) → i < 2 → 2 < (slot_at 0 links i).count → ⊥
    few zero h c = omega arith
    few (suc zero) h c = omega arith
    few (suc (suc i)) h c = omega arith

third_child : items 0 (push 0 1 7 links) 1 ≡ 5 ∷ 6 ∷ 7 ∷ []
unfolding items push
third_child = refl
