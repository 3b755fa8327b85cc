-- ===== src/Lexer/Builder.antt =====
-- lexer/lexer.go: `tokenBuilder` and `triviaBuilder`, which differ in their element type. They grow
-- in blocks taken from pools of used blocks.
use pawn_parser.Prelude.{
  ℕ, zero, suc, ◌+◌, ◌-◌, ◌*◌, ◌/◌, min, Bool, true, false, ◌&&◌, ◌||◌, List, [], ◌∷◌, ◌++◌, Bytes,
  Option, none, some, leb, ltb, ◌==◌, if◌then◌else◌, length, take, set, replicate,
}
pub mod Contents

-- `builderBlockLevel`: `size` is halved at most `builderBlockLevels - 1` times, so the rounds are
-- counted by the levels that are left.
unfoldable pub block_level_loop : ℕ → ℕ → ℕ → ℕ
block_level_loop zero size level = level
block_level_loop (suc left) size level =
    let next = block_level_loop left (size / 2) (level + 1) in if ltb 256 size then next else level

abbrev builder_block_levels : ℕ
builder_block_levels = 5

unfoldable pub builder_block_level : ℕ → ℕ
unfolding block_level_loop
builder_block_level size = block_level_loop (builder_block_levels - 1) size 0

unfoldable pub next_builder_block_size : ℕ → ℕ → ℕ
next_builder_block_size block_count last_size =
    if block_count == 0 then 256 else min (last_size * 2) 4096

-- `blocks` holds the newest block first.
pub record Builder {ℓ} (A : Type ℓ) : Type ℓ where
  pub blocks : List (List A)
  pub next : ℕ
  pub count : ℕ

abbrev pub empty_builder {ℓ} : {A : Type ℓ} → Builder A
empty_builder = record { blocks = []; next = 0; count = 0 }

-- What the pools answer: at the n-th block of a builder, for a level, a block with what it holds
-- from an earlier use, or nothing.
abbrev pub Pools {ℓ} : Type ℓ → Type ℓ
Pools A = ℕ → ℕ → Option (List A)

-- The elements of blocks that are newest first.
abbrev pub in_order {ℓ} : {A : Type ℓ} → List (List A) → List A
in_order [] = []
in_order (block ∷ older) = in_order older ++ block

-- `make([]T, n)` filled from its start by `copy`: exactly `n` elements.
abbrev pub fit {ℓ} : {A : Type ℓ} → A → ℕ → List A → List A
fit blank n xs = take n (xs ++ replicate (n - length xs) blank)

abbrev pub used {ℓ} : {A : Type ℓ} → List (List A) → ℕ → List A
used [] next = []
used (block ∷ older) next = in_order older ++ take next block

abbrev pub last_size {ℓ} : {A : Type ℓ} → List (List A) → ℕ
last_size [] = 0
last_size (block ∷ older) = length block

module _ {ℓ} {A : Type ℓ} (pools : Pools A) (blank : A) where
  -- A pooled block that is large enough is cut to size; else a new one is made.
  unfoldable pub reuse : Option (List A) → ℕ → List A
  reuse none size = replicate size blank
  reuse (some block) size =
      if leb size (length block) then take size block else replicate size blank

  -- `acquireBuiltTokenBlock`, `acquireTriviaBlock`
  unfoldable pub acquire_block : ℕ → ℕ → List A
  acquire_block n size = reuse (pools n (builder_block_level size)) size

  -- A write at `next` of the newest block.
  unfoldable pub put : List (List A) → ℕ → ℕ → A → Builder A
  put [] next count value = record { blocks = []; next = next; count = count }
  put (block ∷ older) next count value = record {
    blocks = set block next value ∷ older;
    next = next + 1;
    count = count + 1;
  }

  unfoldable pub append : Builder A → A → Builder A
  unfolding put acquire_block reuse builder_block_level next_builder_block_size
  append b value =
      if length b.blocks == 0 || b.next == last_size b.blocks
      then put
          (acquire_block (length b.blocks)
              (next_builder_block_size (length b.blocks) (last_size b.blocks))
            ∷ b.blocks)
          0 b.count value
      else put b.blocks b.next b.count value

  -- The blocks' elements, the newest block up to `next`, in a slice of `count` elements.
  unfoldable pub finish : Builder A → List A
  finish b = fit blank b.count (used b.blocks b.next)
