-- ===== src/Preprocess/Pattern.antt =====
-- preprocess/pattern.go: matching a macro's pattern at a place of the source. `none` for a run out of
-- fuel belongs to the model only.
pub mod Skips
pub mod Bounds
use pawn_parser.Prelude.{
  ℕ, zero, suc, ◌+◌, ◌-◌, Bool, true, false, not, ◌&&◌, ◌||◌, List, [], ◌∷◌, Bytes, bytes_eq,
  Option, none, some, ltb, leb, ◌==◌, if◌then◌else◌, length, get_or, take,
}
use pawn_parser.Preprocess.Frame.{ByteRange}

-- `pawnAlpha` of preprocess/macro.go
abbrev pub pawn_alpha : ℕ → Bool
pawn_alpha c = c == b'_' || c == b'@' || leb b'A' c && leb c b'Z' || leb b'a' c && leb c b'z'

abbrev pub is_decimal : ℕ → Bool
is_decimal c = leb b'0' c && leb c b'9'

-- `pawnAlphanum`
unfoldable pub pawn_alphanum : ℕ → Bool
pawn_alphanum c = pawn_alpha c || is_decimal c

-- The byte at an index, where the source only looks within the text.
abbrev pub byte_at : Bytes → ℕ → ℕ
byte_at text i = get_or text i 0

-- `pawnPatternMatch`; the newest capture of a label stands first.
pub record PatternMatch : Type 0 where
  pub end : ℕ
  pub args : List (ℕ × ByteRange)

-- How many bytes at the start of a pattern are letters and digits.
unfoldable pub prefix_length : Bytes → ℕ
unfolding pawn_alphanum
prefix_length [] = 0
prefix_length (c ∷ cs) = let n = prefix_length cs in if pawn_alphanum c then suc n else 0

-- The loop of `skipPawnQuoted`: the index behind the closing quote, or the end.
unfoldable pub quoted_loop : ℕ → Bytes → ℕ → ℕ → ℕ → ℕ
quoted_loop zero source control quote i = length source
quoted_loop (suc fuel) source control quote i = elim (leb (length source) i) [
  | true ↦ length source
  | false ↦ elim (byte_at source i == control && ltb (i + 1) (length source)) [
    | true ↦ quoted_loop fuel source control quote (i + 2)
    | false ↦ elim (byte_at source i == quote) [
      | true ↦ i + 1
      | false ↦ quoted_loop fuel source control quote (i + 1)
    ]
  ]
]

-- Where a text in quotes would have its quote: behind a `!`, if there is one.
abbrev pub quote_index : Bytes → ℕ → ℕ
quote_index source start =
    if byte_at source start == b'!'
      && ltb (start + 1) (length source)
      && byte_at source (start + 1) == b'"'
    then start + 1
    else start

abbrev pub is_quote : ℕ → Bool
is_quote c = c == b'"' || c == b'\''

-- `skipPawnQuoted`
unfoldable pub skip_quoted : Bytes → ℕ → ℕ → Option ℕ
unfolding quoted_loop
skip_quoted source start control =
    let q = quote_index source start in
    if ltb start (length source) && is_quote (byte_at source q)
    then some (quoted_loop (length source) source control (byte_at source q) (q + 1))
    else none

abbrev pub opens_group : ℕ → Bool
opens_group c = c == b'(' || c == b'[' || c == b'{'

abbrev closes : ℕ → ℕ → Bool
closes opener c =
    opener == b'(' && c == b')' || opener == b'[' && c == b']' || opener == b'{' && c == b'}'

-- The stack of open brackets behind a byte, its top first; none is left when the group is closed.
unfoldable pub bracket : List ℕ → ℕ → List ℕ
bracket [] c = []
bracket (opener ∷ stack) c =
    if opens_group c then c ∷ opener ∷ stack else if closes opener c then stack else opener ∷ stack

-- The loop of `skipPawnGroup`.
unfoldable pub group_loop : ℕ → Bytes → ℕ → List ℕ → ℕ → ℕ
unfolding skip_quoted bracket
group_loop zero source control stack i = length source
group_loop (suc fuel) source control stack i = elim (leb (length source) i) [
  | true ↦ length source
  | false ↦ elim (skip_quoted source i control) [
    | some next ↦ group_loop fuel source control stack next
    | none ↦ elim (bracket stack (byte_at source i)) [
      | [] ↦ i + 1
      | opener ∷ rest ↦ group_loop fuel source control (opener ∷ rest) (i + 1)
    ]
  ]
]

-- `skipPawnGroup`
unfoldable pub skip_group : Bytes → ℕ → ℕ → Option ℕ
unfolding group_loop
skip_group source start control =
    if ltb start (length source) && opens_group (byte_at source start)
    then some (group_loop (length source) source control (byte_at source start ∷ []) (start + 1))
    else none

-- Where the search for a delimiter goes on: behind a quoted text, a group, or one byte.
unfoldable pub search_step : Bytes → ℕ → ℕ → ℕ
unfolding skip_quoted skip_group
search_step source control i = elim (skip_quoted source i control) [
  | some next ↦ next
  | none ↦ elim (skip_group source i control) [ some next ↦ next | none ↦ i + 1 ]
]

-- The loop of a capture: to the delimiter, or the end.
unfoldable pub capture_loop : ℕ → Bytes → ℕ → ℕ → ℕ → Option ℕ
unfolding search_step
capture_loop zero source control delimiter i = none
capture_loop (suc fuel) source control delimiter i =
    elim (ltb i (length source) && not (byte_at source i == delimiter)) [
      | true ↦ capture_loop fuel source control delimiter (search_step source control i)
      | false ↦ some i
    ]

-- `for sourceIndex < len(source) && source[sourceIndex] <= ' ' { sourceIndex++ }`
unfoldable pub blanks_loop : ℕ → Bytes → ℕ → ℕ
blanks_loop zero source i = i
blanks_loop (suc fuel) source i = elim (ltb i (length source) && leb (byte_at source i) 32) [
  | true ↦ blanks_loop fuel source (i + 1)
  | false ↦ i
]

abbrev pub skip_blanks : Bytes → ℕ → ℕ
skip_blanks source i = blanks_loop (length source) source i

-- The variables of the loop of `matchPawnPattern`.
pub record Matching : Type 0 where
  pub source_index : ℕ
  pub pattern_index : ℕ
  pub args : List (ℕ × ByteRange)

-- A round fails, goes on, or is out of fuel.
abbrev pub Round : Type 0
Round = Option (Option Matching)

abbrev pub fails : Round
fails = some none

module _ (source pattern : Bytes) (semicolons : Bool) (control : ℕ) where
  -- What follows a capture that stopped at `i`.
  unfoldable pub after_capture : Matching → ℕ → ℕ → Round
  after_capture m delimiter i =
      let captured =
        (byte_at pattern (m.pattern_index + 1) - b'0', record { start = m.source_index; end = i })
        ∷ m.args in
      if ltb i (length source) && byte_at source i == delimiter
      then some (
          some
            (record { source_index = i + 1; pattern_index = m.pattern_index + 3; args = captured }))
      else if delimiter == b';' && m.pattern_index + 3 == length pattern && not semicolons
      then some
          (some (record { source_index = i; pattern_index = m.pattern_index + 3; args = captured }))
      else fails

  abbrev captured : Matching → ℕ → Option ℕ → Round
  captured m delimiter none = none
  captured m delimiter (some i) = after_capture m delimiter i

  -- `%` with a label and a delimiter
  unfoldable pub capture : Matching → Round
  unfolding capture_loop after_capture
  capture m =
      if leb (length pattern) (m.pattern_index + 2)
        || not (is_decimal (byte_at pattern (m.pattern_index + 1)))
      then fails
      else captured m (byte_at pattern (m.pattern_index + 2)) (
          capture_loop (length source + 1) source control (byte_at pattern (m.pattern_index + 2))
            m.source_index)

  -- A last `;` that the end of the source may stand for.
  unfoldable pub last_semicolon : Matching → Round
  unfolding blanks_loop
  last_semicolon m =
      let i = skip_blanks source m.source_index in
      if leb (length source) i
      then some (some (record m { source_index = i; pattern_index = m.pattern_index + 1 }))
      else if byte_at source i == b';'
      then some (some (record m { source_index = i + 1; pattern_index = m.pattern_index + 1 }))
      else fails

  -- Blanks in the source are skipped before punctuation that does not repeat.
  abbrev pub literal_index : Matching → ℕ
  literal_index m =
      let c = byte_at pattern m.pattern_index in
      if not (pawn_alphanum c)
        && ltb 0 m.pattern_index
        && not (byte_at pattern (m.pattern_index - 1) == c)
      then skip_blanks source m.source_index
      else m.source_index

  unfoldable pub literal : Matching → Round
  unfolding blanks_loop pawn_alphanum
  literal m =
      let i = literal_index m in
      if ltb i (length source) && byte_at source i == byte_at pattern m.pattern_index
      then some (some (record m { source_index = i + 1; pattern_index = m.pattern_index + 1 }))
      else fails

  -- A round of the loop.
  unfoldable pub match_round : Matching → Round
  unfolding capture last_semicolon literal
  match_round m =
      let c = byte_at pattern m.pattern_index in
      if c == b'%'
      then capture m
      else if c == b';' && m.pattern_index + 1 == length pattern && not semicolons
      then last_semicolon m
      else literal m

  unfoldable pub match_loop : ℕ → Matching → Round
  unfolding match_round
  match_loop zero m = none
  match_loop (suc fuel) m = elim (ltb m.pattern_index (length pattern)) [
    | false ↦ some (some m)
    | true ↦ elim (match_round m) [
      | none ↦ none
      | some none ↦ fails
      | some (some n) ↦ match_loop fuel n
    ]
  ]

  -- The tests behind the loop.
  unfoldable pub finish_match : Matching → Option PatternMatch
  unfolding pawn_alphanum
  finish_match m =
      if not (m.pattern_index == length pattern)
      then none
      else if ltb 0 m.pattern_index
          && pawn_alphanum (byte_at pattern (m.pattern_index - 1))
          && ltb m.source_index (length source)
          && pawn_alphanum (byte_at source m.source_index)
      then none
      else some (record { end = m.source_index; args = m.args })

  abbrev finished : Round → Option (Option PatternMatch)
  finished none = none
  finished (some none) = some none
  finished (some (some m)) = some (finish_match m)

  -- `matchPawnPattern`
  unfoldable pub match_pattern : Option (Option PatternMatch)
  unfolding prefix_length match_loop finish_match bytes_eq
  match_pattern =
      let n = prefix_length pattern in
      if n == 0 || ltb (length source) n || not (bytes_eq (take n source) (take n pattern))
      then some none
      else finished (
          match_loop (length pattern + 1)
            (record { source_index = n; pattern_index = n; args = [] }))
