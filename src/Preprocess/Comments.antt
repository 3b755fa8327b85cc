-- ===== src/Preprocess/Comments.antt =====
-- preprocess/pattern.go: the text of a line that patterns are matched against: where a logical line
-- ends, and the line without its comments.
pub mod Parts
pub mod Masks
pub mod Trims
pub mod Lines
use pawn_parser.Prelude.{
  ℕ, zero, suc, ◌+◌, ◌-◌, true, false, ◌&&◌, ◌||◌, [], ◌∷◌, Bytes, ltb, leb, ◌==◌, if◌then◌else◌,
  length, min,
}
use pawn_parser.Preprocess.Pattern.{byte_at, is_quote}

-- The bytes that stay where they are: the end of a line inside a comment.
abbrev blanked : ℕ → ℕ
blanked c = if c == b'\n' || c == b'\r' then c else b' '

-- The rounds of the loop of `stripPatternComments`: in code, in a text with this quote, and in a
-- comment. What the source writes over a byte in its copy is what stands in the result here.
unfoldable mutual
  pub strip_code : ℕ → Bytes → Bytes
  strip_code control [] = []
  strip_code control (c ∷ []) = c ∷ []
  strip_code control (c ∷ d ∷ cs) = elim (is_quote c) [
    | true ↦ c ∷ strip_quoted control c (d ∷ cs)
    | false ↦ elim (c == b'/' && d == b'/') [
      | true ↦ b'\n' ∷ []
      | false ↦ elim (c == b'/' && d == b'*') [
        | true ↦ b' ' ∷ b' ' ∷ strip_comment control cs
        | false ↦ c ∷ strip_code control (d ∷ cs)
      ]
    ]
  ]

  pub strip_quoted : ℕ → ℕ → Bytes → Bytes
  strip_quoted control quote [] = []
  strip_quoted control quote (c ∷ []) = c ∷ []
  strip_quoted control quote (c ∷ d ∷ cs) = elim (c == control) [
    | true ↦ c ∷ d ∷ strip_quoted control quote cs
    | false ↦ elim (c == quote) [
      | true ↦ c ∷ strip_code control (d ∷ cs)
      | false ↦ c ∷ strip_quoted control quote (d ∷ cs)
    ]
  ]

  pub strip_comment : ℕ → Bytes → Bytes
  strip_comment control [] = []
  strip_comment control (c ∷ []) = blanked c ∷ []
  strip_comment control (c ∷ d ∷ cs) = elim (c == b'*' && d == b'/') [
    | true ↦ b' ' ∷ b' ' ∷ strip_code control cs
    | false ↦ blanked c ∷ strip_comment control (d ∷ cs)
  ]

-- `stripPatternComments`
unfoldable pub strip_pattern_comments : Bytes → ℕ → Bytes
unfolding strip_code
strip_pattern_comments source control = strip_code control source

-- `bytes.IndexByte` of a line end from an index on, or the length when there is none.
unfoldable pub line_end_from : ℕ → Bytes → ℕ → ℕ
line_end_from zero source i = length source
line_end_from (suc fuel) source i = elim (leb (length source) i) [
  | true ↦ length source
  | false ↦ elim (byte_at source i == b'\n') [
    | true ↦ i
    | false ↦ line_end_from fuel source (i + 1)
  ]
]

-- Backwards over blanks, not before `offset`.
unfoldable pub trim_blanks : Bytes → ℕ → ℕ → ℕ
trim_blanks source offset zero = zero
trim_blanks source offset (suc trimmed) =
    elim (ltb offset (suc trimmed)
      && (byte_at source trimmed == b' ' || byte_at source trimmed == b'\t')) [
        | true ↦ trim_blanks source offset trimmed
        | false ↦ suc trimmed
      ]

-- The last byte of a line that counts, when blanks and a carriage return are left out.
unfoldable pub trimmed_end : Bytes → ℕ → ℕ → ℕ
unfolding trim_blanks
trimmed_end source offset line_end = trim_blanks source offset (
    if ltb offset line_end && byte_at source (line_end - 1) == b'\r'
    then line_end - 1
    else line_end)

-- The loop of `sourceLogicalLineEnd`, with a round for each line.
unfoldable pub logical_line_loop : ℕ → Bytes → ℕ → ℕ
unfolding line_end_from trimmed_end
logical_line_loop zero source offset = length source
logical_line_loop (suc fuel) source offset =
    let line_end = line_end_from (length source) source offset in
    elim (leb (length source) offset || leb (length source) line_end) [
      | true ↦ length source
      | false ↦
          let trimmed = trimmed_end source offset line_end in
          elim (ltb offset trimmed && byte_at source (trimmed - 1) == b'\\') [
            | true ↦ logical_line_loop fuel source (line_end + 1)
            | false ↦ min (line_end + 1) (length source)
          ]
    ]

-- `sourceLogicalLineEnd`
unfoldable pub source_logical_line_end : Bytes → ℕ → ℕ
unfolding logical_line_loop
source_logical_line_end source offset =
    logical_line_loop (length source + 1) source (min offset (length source))
