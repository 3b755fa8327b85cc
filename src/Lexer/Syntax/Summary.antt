-- ===== src/Lexer/Syntax/Summary.antt =====
-- What the flags of a list of trivia say.
use pawn_parser.Prelude.{Bool, true, false, ◌||◌, List, [], ◌∷◌, ◌++◌, ◌≡◌, refl, sym, ap, ◌∙◌, ap₂}
use pawn_parser.Token.Kind.{Kind, kind_eq}
use pawn_parser.Token.Types.{Trivia, Token}
use pawn_parser.Token.Compact.{TriviaFlags, union, trivia_flags, SyntaxToken}

abbrev pub any_trivia : List Trivia → Bool
any_trivia [] = false
any_trivia (t ∷ ts) = true

abbrev pub any_newline : List Trivia → Bool
any_newline [] = false
any_newline (t ∷ ts) = kind_eq t.kind Kind.newline || any_newline ts

-- Whether there is trivia at all, and whether a newline is among it.
abbrev pub flags_of : List Trivia → TriviaFlags
flags_of ts = record { present = any_trivia ts; ends_line = any_newline ts }

-- A token with flags in place of its trivia, and with offsets only.
abbrev pub summary : Token → SyntaxToken
summary t = record {
  kind = t.kind;
  start = t.start.offset;
  end = t.end.offset;
  leading_flags = flags_of t.leading_trivia;
  trailing_flags = flags_of t.trailing_trivia;
}

any_trivia-append : (ts : List Trivia) (t : Trivia) → any_trivia (ts ++ (t ∷ [])) ≡ true
any_trivia-append [] t = refl
any_trivia-append (x ∷ ts) t = refl

or_assoc : (a b c : Bool) → ((a || b) || c) ≡ (a || (b || c))
or_assoc true b c = refl
or_assoc false b c = refl

or_false : (a : Bool) → (a || false) ≡ a
or_false true = refl
or_false false = refl

or_true : (a : Bool) → (a || true) ≡ true
or_true true = refl
or_true false = refl

any_newline-append :
    (ts : List Trivia) (t : Trivia)
    → any_newline (ts ++ (t ∷ [])) ≡ (any_newline ts || kind_eq t.kind Kind.newline)
any_newline-append [] t = or_false _
any_newline-append (x ∷ ts) t =
    ap (λ b. kind_eq x.kind Kind.newline || b) (any_newline-append ts t)
    ∙ sym (or_assoc (kind_eq x.kind Kind.newline) (any_newline ts) (kind_eq t.kind Kind.newline))

pub flags_of-append :
    (ts : List Trivia) (t : Trivia)
    → union (flags_of ts) (trivia_flags t.kind) ≡ flags_of (ts ++ (t ∷ []))
unfolding union trivia_flags
flags_of-append ts t =
    ap₂ (λ a b. record { present = a; ends_line = b })
      (or_true (any_trivia ts) ∙ sym (any_trivia-append ts t)) (sym (any_newline-append ts t))
