-- ===== src/Rebase.antt =====
-- rebase.go: the shift of a compact tree's offsets across an edit.
pub mod Pieces
pub mod Texts
use pawn_parser.Prelude.{
  ℕ, ◌+◌, ◌-◌, min, List, Bool, true, false, Option, none, some, ltb, leb, if◌then◌else◌,
}
use pawn_parser.Token.Kind.{Kind, kind_eq}
use pawn_parser.Sink.Nodes.{CompactNode}
use pawn_parser.Preprocess.Frame.{ByteRange}
use pawn_parser.Token.Compact.{compact_uint, ◌>>=◌, each}

-- The offset of a byte of the edit, which stays within the new text.
abbrev pub within_edit : ℕ → ByteRange → ByteRange → ℕ
within_edit value before after = after.start + min (value - before.start) (after.end - after.start)

-- `shiftedStart`; `ByteRange` of diagnostic.go is the same pair of offsets as that of the preprocessor.
unfoldable pub shifted_start : ℕ → ByteRange → ByteRange → Option ℕ
unfolding compact_uint
shifted_start value before after =
    if ltb value before.start
    then some value
    else if leb before.end value
    then compact_uint (value + after.end - before.end)
    else compact_uint (within_edit value before after)

-- `shiftedEnd`
unfoldable pub shifted_end : ℕ → ByteRange → ByteRange → Option ℕ
unfolding compact_uint
shifted_end value before after =
    if leb value before.start
    then some value
    else if leb before.end value
    then compact_uint (value + after.end - before.end)
    else compact_uint (within_edit value before after)

-- The token of a node is shifted if it has one.
unfoldable pub shifted_token : ByteRange → ByteRange → CompactNode → Option CompactNode
unfolding shifted_start shifted_end kind_eq
shifted_token before after node = if kind_eq node.token_kind Kind.invalid then some node else do
  start ← shifted_start node.token_start before after
  end ← shifted_end node.token_end before after
  some (record node { token_start = start; token_end = end })

-- A round of the loop of `RebaseCompactTrivia`.
unfoldable pub shifted_node : ByteRange → ByteRange → CompactNode → Option CompactNode
unfolding shifted_start shifted_end shifted_token
shifted_node before after node = do
  start ← shifted_start node.start before after
  end ← shifted_end node.end before after
  shifted_token before after (record node { start = start; end = end })
