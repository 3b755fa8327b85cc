-- ===== src/Token/LineMap.antt =====
-- token/line_map.go: offsets to positions by a table of line starts.
pub mod Agrees
use pawn_parser.Prelude.{
  ℕ, zero, suc, ◌+◌, ◌-◌, ◌/◌, ◌%◌, ◌^◌, Bool, true, false, List, [], ◌∷◌, ◌++◌, Bytes, ltb, ◌==◌,
  if◌then◌else◌, length, get_or,
}
use pawn_parser.Token.Types.{Position}

pub record LineMap : Type 0 where
  pub starts : List ℕ

-- The loop of `NewLineMap`; `uint32(offset + 1)` keeps 32 bits.
unfoldable pub line_map_loop : Bytes → ℕ → List ℕ → List ℕ
line_map_loop [] offset starts = starts
line_map_loop (value ∷ rest) offset starts =
    line_map_loop rest (offset + 1)
      (if value == b'\n' then starts ++ ((offset + 1) % 2 ^ 32 ∷ []) else starts)

unfoldable pub new_line_map : Bytes → LineMap
unfolding line_map_loop
new_line_map source = record { starts = line_map_loop source 0 (0 ∷ []) }

-- `sort.Search` between `i` and `j`, with a round for each index.
unfoldable pub search_loop : ℕ → (ℕ → Bool) → ℕ → ℕ → ℕ
search_loop zero found i j = i
search_loop (suc fuel) found i j = elim (ltb i j) [
  | false ↦ i
  | true ↦ elim (found ((i + j) / 2)) [
    | false ↦ search_loop fuel found ((i + j) / 2 + 1) j
    | true ↦ search_loop fuel found i ((i + j) / 2)
  ]
]

unfoldable pub sort_search : ℕ → (ℕ → Bool) → ℕ
unfolding search_loop
sort_search n found = search_loop n found 0 n

-- `LineMap.Position`
unfoldable pub line_map_position : LineMap → ℕ → Position
unfolding sort_search
line_map_position m offset =
    let line = sort_search (length m.starts) (λ i. ltb offset (get_or m.starts i 0)) in
    if line == 0
    then record { offset = offset; line = 1; col = offset + 1 }
    else record { offset = offset; line = line; col = offset - get_or m.starts (line - 1) 0 + 1 }
