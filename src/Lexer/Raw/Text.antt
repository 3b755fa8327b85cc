-- ===== src/Lexer/Raw/Text.antt =====
-- The texts of the raw tokens, one after another, are the source.
use pawn_parser.Prelude.{
  ◌-◌, ℕ, ◌≤◌, ◌≡◌, refl, sym, ap, ap₂, ◌∙◌, ◌||◌, List, [], ◌∷◌, ◌++◌, map, Bytes, arith, length,
  slice, slice-append, slice-whole, take, drop, ltb, if_cases, append-nil, append_assoc,
}
use pawn_parser.Token.Types.{Position, Token, span_text, token_text}
use pawn_parser.Token.Locate.{position_at}
use pawn_parser.Lexer.Scanner.{RawToken}
use pawn_parser.Lexer.Raw.{raw_tokens, scan_all}
use pawn_parser.Lexer.Raw.Tiling.{Tiles, finish, next, scan_all-Tiles, span, raw_tokens_spans}

abbrev pub raw_text : Bytes → RawToken → Bytes
raw_text src r = span_text r.start r.end src

abbrev pub raw_texts : Bytes → List RawToken → Bytes
raw_texts src [] = []
raw_texts src (r ∷ rs) = raw_text src r ++ raw_texts src rs

pub raw_texts-append :
    (src : Bytes) (rs ts : List RawToken)
    → raw_texts src (rs ++ ts) ≡ raw_texts src rs ++ raw_texts src ts
raw_texts-append src [] ts = refl
raw_texts-append src (r ∷ rs) ts =
    ap (λ xs. raw_text src r ++ xs) (raw_texts-append src rs ts)
    ∙ sym (append_assoc (raw_text src r) (raw_texts src rs) (raw_texts src ts))

span_text-slice :
    (src : Bytes) (start end : Position)
    → start.offset ≤ end.offset
    → end.offset ≤ length src
    → span_text start end src ≡ slice src start.offset end.offset
span_text-slice src start end h k =
    if_cases (λ (xs : Bytes). xs ≡ slice src start.offset end.offset)
      (ltb (length src) end.offset || ltb end.offset start.offset) _ _ (λ e. absurd (ground arith))
      (λ _. refl)

raw_text-slice :
    (src : Bytes) (r : RawToken) {n m : ℕ}
    → r.start ≡ position_at src n
    → r.end ≡ position_at src m
    → n ≤ m
    → m ≤ length src
    → raw_text src r ≡ slice src n m
raw_text-slice src r {n} {m} s t h k =
    ap₂ (λ a b. span_text a b src) s t
    ∙ span_text-slice src (position_at src n) (position_at src m) h k

slice_empty : (src : Bytes) (n : ℕ) → slice src n n ≡ []
slice_empty src n = ap (λ k. take k (drop n src)) (let e : n - n ≡ 0 = omega arith in e)

Tiles-texts :
    {src : Bytes} {n : ℕ} {rs : List RawToken}
    → Tiles src n rs
    → n ≤ length src
    → raw_texts src rs ≡ slice src n (length src)
Tiles-texts {src} (finish {n} {r} e k s t) h =
    append-nil (raw_text src r)
    ∙ raw_text-slice src r s t (omega arith) h
    ∙ slice_empty src n
    ∙ sym (slice_empty src n)
    ∙ ap (slice src n) e
Tiles-texts {src} (next {n} {m} {r} {rs} h b k s t rest) g =
    ap₂ ◌++◌ (raw_text-slice src r s t (omega arith) b) (Tiles-texts rest b)
    ∙ slice-append src (omega arith) b

pub scan_all_texts : (src : Bytes) → raw_texts src (scan_all src) ≡ src
scan_all_texts src = Tiles-texts (scan_all-Tiles src) (omega arith) ∙ slice-whole src

abbrev pub token_texts : Bytes → List Token → Bytes
token_texts src [] = []
token_texts src (t ∷ ts) = token_text t src ++ token_texts src ts

token_texts-spans :
    (src : Bytes) (ts : List Token) → token_texts src ts ≡ raw_texts src (map span ts)
unfolding token_text
token_texts-spans src [] = refl
token_texts-spans src (t ∷ ts) = ap (λ xs. token_text t src ++ xs) (token_texts-spans src ts)

-- The texts of the tokens that `RawTokens` returns are, put together, the source.
pub raw_tokens_texts : (src : Bytes) → token_texts src (raw_tokens src) ≡ src
raw_tokens_texts src =
    token_texts-spans src (raw_tokens src)
    ∙ ap (raw_texts src) (raw_tokens_spans src)
    ∙ scan_all_texts src
