-- ===== src/Lexer/Raw/Tiling.antt =====
-- The raw tokens cover the source from its first byte to its last.
use pawn_parser.Prelude.{
  leb→le, leb-false→lt, ℕ, zero, suc, ◌+◌, ◌≤◌, ◌<◌, ◌≡◌, refl, ap, ◌∙◌, false, List, [], ◌∷◌, map,
  Bytes, arith, length, Bool-cases, inl, inr,
}
use pawn_parser.Token.Kind.{Kind, kind_eq}
use pawn_parser.Token.Types.{Token}
use pawn_parser.Token.Locate.{position_at}
use pawn_parser.Lexer.Scanner.{RawToken, Scanner, new_scanner, here, at_end}
use pawn_parser.Lexer.Moves.{Moves, Moves-src, Moves-within}
use pawn_parser.Lexer.Locates.{Located, new_scanner-Located, Moves-Located, here-position_at}
use pawn_parser.Lexer.Scans.Next.{next_raw-Scans}
use pawn_parser.Lexer.Scans.Kinds.{next_raw-IsOther, next_raw-end}
use pawn_parser.Lexer.Raw.{next_raw, raw_loop, scan_all, bare_token, raw_tokens}

-- The tokens cover `src` from an offset on: each begins where the one before it ended and is not
-- empty, each position is that of its offset, and the last token is an empty one of kind `eof` at
-- the end of the source, the only one of its kind.
pub data Tiles (src : Bytes) : ℕ → List RawToken → Type 0 where
  finish :
      {n : ℕ} {r : RawToken}
      → n ≡ length src
      → r.kind ≡ Kind.eof
      → r.start ≡ position_at src n
      → r.end ≡ position_at src n
      → Tiles src n (r ∷ [])
  next :
      {n m : ℕ} {r : RawToken} {rs : List RawToken}
      → n < m
      → m ≤ length src
      → kind_eq r.kind Kind.eof ≡ false
      → r.start ≡ position_at src n
      → r.end ≡ position_at src m
      → Tiles src m rs
      → Tiles src n (r ∷ rs)

-- What the scanner knows between two tokens.
record Ready (src : Bytes) (s : Scanner) : Type 0 where
  source : s.src ≡ src
  located : Located s
  inside : s.pos ≤ length s.src

Ready-Moves : {src : Bytes} {s t : Scanner} → Ready src s → Moves s t → Ready src t
Ready-Moves r m = record {
  source = Moves-src m ∙ r.source;
  located = Moves-Located m r.located;
  inside = Moves-within m r.inside;
}

Ready-here : {src : Bytes} {s : Scanner} → Ready src s → here s ≡ position_at src s.pos
Ready-here {src} {s} r = here-position_at s r.located ∙ ap (λ b. position_at b s.pos) r.source

raw_loop-Tiles :
    (src : Bytes) (fuel : ℕ) (s : Scanner)
    → Ready src s
    → length src < s.pos + fuel
    → Tiles src s.pos (raw_loop fuel s)
unfolding raw_loop kind_eq
raw_loop-Tiles src zero s r h = absurd (omega (arith, r.inside, ap length r.source))
raw_loop-Tiles src (suc fuel) s r h = elim (Bool-cases (at_end s)) [
  | inl e ↦ rw (next_raw-end s e) (
      finish (omega (arith, leb→le (length s.src) s.pos e, r.inside, ap length r.source)) refl
        (Ready-here r) (Ready-here r))
  | inr e ↦
      let q = next_raw-Scans s (leb-false→lt (length s.src) s.pos e) in
      let r' = Ready-Moves r q.advances.moves in
      let last = q.ends ∙ Ready-here r' in
      rw (next_raw-IsOther s e) (
        next q.advances.progress (omega (arith, r'.inside, ap length r'.source))
          (next_raw-IsOther s e) (q.starts ∙ Ready-here r) last
          (raw_loop-Tiles src fuel (next_raw s).1 r' (omega (arith, q.advances.progress))))
]

pub scan_all-Tiles : (src : Bytes) → Tiles src 0 (scan_all src)
unfolding scan_all
scan_all-Tiles src =
    raw_loop-Tiles src (length src + 1) (new_scanner src)
      (record { source = refl; located = new_scanner-Located src; inside = omega arith })
      (omega arith)

-- A token as its kind and its two positions.
abbrev pub span : Token → RawToken
span t = record { kind = t.kind; start = t.start; end = t.end }

map-span-bare_token : (rs : List RawToken) → map span (map bare_token rs) ≡ rs
map-span-bare_token [] = refl
map-span-bare_token (r ∷ rs) = ap (◌∷◌ r) (map-span-bare_token rs)

pub raw_tokens_spans : (src : Bytes) → map span (raw_tokens src) ≡ scan_all src
unfolding raw_tokens
raw_tokens_spans src = map-span-bare_token (scan_all src)

-- The tokens of `RawTokens` tile the source: they are consecutive from offset 0, all but the last are
-- not empty, their positions are the lines and columns of their offsets, and the last, at the end of
-- the source, is the only one of kind `EOF`.
pub raw_tokens-Tiles : (src : Bytes) → Tiles src 0 (map span (raw_tokens src))
raw_tokens-Tiles src = rw raw_tokens_spans (scan_all-Tiles src)
