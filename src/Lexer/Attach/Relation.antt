-- ===== src/Lexer/Attach/Relation.antt =====
-- Which trivia belongs to which token, as a relation between raw tokens and tokens.
use mathlib.Core.List.{map-append}
use pawn_parser.Prelude.{
  sym, ap₂, subst, arith, append-nil, true, false, List, [], ◌∷◌, ◌++◌, map, ◌≡◌, refl, ap, ◌∙◌,
  append_assoc,
}
use pawn_parser.Token.Kind.{Kind, kind_eq}
use pawn_parser.Token.Keyword.{is_trivia}
use pawn_parser.Token.Types.{Trivia, Token}
use pawn_parser.Lexer.Scanner.{RawToken}

abbrev pub token_with : RawToken → List Trivia → List Trivia → Token
token_with r leading trailing = record {
  kind = r.kind;
  start = r.start;
  end = r.end;
  leading_trivia = leading;
  trailing_trivia = trailing;
  origin = [];
}

abbrev pub raw_trivia : RawToken → Trivia
raw_trivia r = record { kind = r.kind; start = r.start; end = r.end }

abbrev pub raw_of_trivia : Trivia → RawToken
raw_of_trivia t = record { kind = t.kind; start = t.start; end = t.end }

-- The trivia that trails a token, and what is left behind it: trivia up to and with the first
-- newline, or up to the next token.
pub data Trailing : List RawToken → List Trivia → List RawToken → Type 0 where
  stop :
      {r : RawToken} {rs : List RawToken} → is_trivia r.kind ≡ false → Trailing (r ∷ rs) [] (r ∷ rs)
  newline :
      {r : RawToken} {rs : List RawToken}
      → is_trivia r.kind ≡ true
      → kind_eq r.kind Kind.newline ≡ true
      → Trailing (r ∷ rs) (raw_trivia r ∷ []) rs
  more :
      {r : RawToken} {rs rest : List RawToken} {ts : List Trivia}
      → is_trivia r.kind ≡ true
      → kind_eq r.kind Kind.newline ≡ false
      → Trailing rs ts rest
      → Trailing (r ∷ rs) (raw_trivia r ∷ ts) rest

-- The tokens of a list of raw tokens, when `leading` has been read since the last token.
pub data Attached : List Trivia → List RawToken → List Token → Type 0 where
  lead :
      {leading : List Trivia} {r : RawToken} {rs : List RawToken} {ts : List Token}
      → is_trivia r.kind ≡ true
      → Attached (leading ++ (raw_trivia r ∷ [])) rs ts
      → Attached leading (r ∷ rs) ts
  last :
      {leading : List Trivia} {r : RawToken}
      → is_trivia r.kind ≡ false
      → kind_eq r.kind Kind.eof ≡ true
      → Attached leading (r ∷ []) (token_with r leading [] ∷ [])
  token :
      {leading : List Trivia} {r : RawToken} {rs rest : List RawToken} {trailing : List Trivia}
      {ts : List Token}
      → is_trivia r.kind ≡ false
      → kind_eq r.kind Kind.eof ≡ false
      → Trailing rs trailing rest
      → Attached [] rest ts
      → Attached leading (r ∷ rs) (token_with r leading trailing ∷ ts)

-- A token with the trivia around it, in the order of the source.
abbrev pub spread : Token → List RawToken
spread t =
    map raw_of_trivia t.leading_trivia
    ++ ((record { kind = t.kind; start = t.start; end = t.end })
        ∷ map raw_of_trivia t.trailing_trivia)

abbrev pub spread_all : List Token → List RawToken
spread_all [] = []
spread_all (t ∷ ts) = spread t ++ spread_all ts

Trailing-spread :
    {rs rest : List RawToken} {ts : List Trivia}
    → Trailing rs ts rest
    → map raw_of_trivia ts ++ rest ≡ rs
Trailing-spread (stop h) = refl
Trailing-spread (newline h n) = refl
Trailing-spread (more {r} h n t) = ap (◌∷◌ r) (Trailing-spread t)

-- Nothing is lost, added or moved when the trivia is attached.
pub Attached-spread :
    {leading : List Trivia} {rs : List RawToken} {ts : List Token}
    → Attached leading rs ts
    → spread_all ts ≡ map raw_of_trivia leading ++ rs
Attached-spread (lead {leading} {r} {rs} h a) = Attached-spread a ∙ simp (map-append, append_assoc)
Attached-spread (last {leading} {r} h e) = append-nil _
Attached-spread (token {leading} {r} {rs} {rest} {trailing} {ts} h e t a) =
    append_assoc (map raw_of_trivia leading) (r ∷ map raw_of_trivia trailing) (spread_all ts)
    ∙ ap (λ xs. map raw_of_trivia leading ++ (r ∷ xs))
        (ap (λ xs. map raw_of_trivia trailing ++ xs) (Attached-spread a) ∙ Trailing-spread t)

Trailing-unique :
    {rs rest rest' : List RawToken} {ts ts' : List Trivia}
    → Trailing rs ts rest
    → Trailing rs ts' rest'
    → (ts ≡ ts') × (rest ≡ rest')
Trailing-unique (stop h) (stop k) = (refl, refl)
Trailing-unique (stop h) (newline k n) = absurd (ground arith)
Trailing-unique (stop h) (more k n t) = absurd (ground arith)
Trailing-unique (newline h m) (stop k) = absurd (ground arith)
Trailing-unique (newline h m) (newline k n) = (refl, refl)
Trailing-unique (newline h m) (more k n t) = absurd (ground arith)
Trailing-unique (more h m t) (stop k) = absurd (ground arith)
Trailing-unique (more h m t) (newline k n) = absurd (ground arith)
Trailing-unique (more {r} h m t) (more k n u) =
    let (e, f) = Trailing-unique t u in (ap (◌∷◌ (raw_trivia r)) e, f)

-- The trivia can be attached in one way only.
pub Attached-unique :
    {leading : List Trivia} {rs : List RawToken} {ts us : List Token}
    → Attached leading rs ts
    → Attached leading rs us
    → ts ≡ us
Attached-unique (lead h a) (lead k b) = Attached-unique a b
Attached-unique (lead h a) (last k e) = absurd (ground arith)
Attached-unique (lead h a) (token k e t b) = absurd (ground arith)
Attached-unique (last h e) (lead k b) = absurd (ground arith)
Attached-unique (last h e) (last k f) = refl
Attached-unique (last h e) (token k f t b) = absurd (ground arith)
Attached-unique (token h e t a) (lead k b) = absurd (ground arith)
Attached-unique (token h e t a) (last k f) = absurd (ground arith)
Attached-unique (token {leading} {r} {rs} {rest} h e t a) (token {ts = vs} k f u b) =
    let (same, rest_same) = Trailing-unique t u in
    ap₂ (λ x xs. token_with r leading x ∷ xs) same
      (Attached-unique a (subst (λ x. Attached [] x vs) (sym rest_same) b))
