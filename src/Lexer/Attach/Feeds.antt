-- ===== src/Lexer/Attach/Feeds.antt =====
-- The raw tokens that a scanner still has to give, and those that the loop still has to take.
use pawn_parser.Prelude.{
  ℕ, zero, suc, ◌+◌, ◌≤◌, ◌≡◌, true, false, List, [], ◌∷◌, Bytes, Option, none, some, arith, length,
  Bool-cases, inl, inr,
}
use pawn_parser.Token.Kind.{Kind, kind_eq}
use pawn_parser.Lexer.Scanner.{RawToken, Scanner, new_scanner}
use pawn_parser.Lexer.Raw.{next_raw, raw_loop, scan_all}
use pawn_parser.Lexer.Raw.Tiling.{Tiles, finish, next, scan_all-Tiles}

mutual
  pub data Feeds : Scanner → List RawToken → Type 0 where
    feed :
        {s : Scanner} {rs : List RawToken}
        → After (next_raw s).0 (next_raw s).1 rs
        → Feeds s ((next_raw s).0 ∷ rs)

  -- What is left when a raw token has been taken: nothing behind the end of the file.
  pub data After : RawToken → Scanner → List RawToken → Type 0 where
    ended : {r : RawToken} {s : Scanner} → kind_eq r.kind Kind.eof ≡ true → After r s []
    goes :
        {r : RawToken} {s : Scanner} {rs : List RawToken}
        → kind_eq r.kind Kind.eof ≡ false
        → Feeds s rs
        → After r s rs

-- The raw tokens behind a pending one, or those of the scanner.
pub data Holds : Option RawToken → Scanner → List RawToken → Type 0 where
  fresh : {s : Scanner} {rs : List RawToken} → Feeds s rs → Holds none s rs
  kept :
      {r : RawToken} {s : Scanner} {rs : List RawToken} → After r s rs → Holds (some r) s (r ∷ rs)

-- A complete list of raw tokens ends with the end of the file, and only there.
data Complete : List RawToken → Type 0 where
  close : {r : RawToken} → kind_eq r.kind Kind.eof ≡ true → Complete (r ∷ [])
  open_on :
      {r : RawToken} {rs : List RawToken}
      → kind_eq r.kind Kind.eof ≡ false
      → Complete rs
      → Complete (r ∷ rs)

Complete-tail :
    {r : RawToken} {rs : List RawToken}
    → Complete (r ∷ rs)
    → kind_eq r.kind Kind.eof ≡ false
    → Complete rs
Complete-tail (close e) h = cc
Complete-tail (open_on e c) h = c

Tiles-Complete : {src : Bytes} {n : ℕ} {rs : List RawToken} → Tiles src n rs → Complete rs
unfolding kind_eq
Tiles-Complete (finish {r} e k s t) = close (rw k)
Tiles-Complete (next h m k s t rest) = open_on k (Tiles-Complete rest)

raw_loop-Feeds : (fuel : ℕ) (s : Scanner) → Complete (raw_loop fuel s) → Feeds s (raw_loop fuel s)
unfolding raw_loop
raw_loop-Feeds zero s c = elim c [ ]
raw_loop-Feeds (suc fuel) s c = elim (Bool-cases (kind_eq (next_raw s).0.kind Kind.eof)) [
  | inl e ↦ rw (e, raw_loop) (feed (ended e))
  | inr e ↦
      rw (e, raw_loop)
        (feed
          (goes e (raw_loop-Feeds fuel (next_raw s).1 (Complete-tail (rw (e, raw_loop) at c) e))))
]

pub scan_all-Feeds : (src : Bytes) → Feeds (new_scanner src) (scan_all src)
unfolding scan_all
scan_all-Feeds src =
    raw_loop-Feeds (length src + 1) (new_scanner src) (Tiles-Complete (scan_all-Tiles src))

-- There are at most as many raw tokens as bytes, and one.
Tiles-length :
    {src : Bytes} {n : ℕ} {rs : List RawToken} → Tiles src n rs → n + length rs ≤ length src + 1
Tiles-length (finish e k s t) = omega arith
Tiles-length (next h m k s t rest) = omega (arith, Tiles-length rest)

pub length-scan_all : (src : Bytes) → length (scan_all src) ≤ length src + 1
length-scan_all src = omega (arith, Tiles-length (scan_all-Tiles src))
