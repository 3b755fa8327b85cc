-- ===== src/Token/Keyword/Spelling.antt =====
-- The keyword table and the names of the kinds agree.
use pawn_parser.Prelude.{
  ◌≡◌, refl, sym, ap, ◌∙◌, ◌↔◌, Bool, true, ◌&&◌, List, [], ◌∷◌, Bytes, some, bytes_eq,
  bytes_eq_iff, leb, arith, Bool-cases, inl, inr, subst,
}
use pawn_parser.Token.Kind.{Kind, ordinal}
use pawn_parser.Token.Keyword.{keywords, lookup, lookup_keyword, kind_name}

-- The kinds between the first keyword and the last.
abbrev pub is_keyword : Kind → Bool
is_keyword k = leb (ordinal Kind.kw_public) (ordinal k) && leb (ordinal k) (ordinal Kind.kw_null)

-- A test of every entry of the table.
abbrev all_entries : (Bytes → Kind → Bool) → List (Bytes × Kind) → Bool
all_entries p [] = true
all_entries p ((word, k) ∷ ws) = p word k && all_entries p ws

and_true : (a b : Bool) → a && b ≡ true → (a ≡ true) × (b ≡ true)
and_true a b h = ground arith

lookup_entry :
    (p : Bytes → Kind → Bool) (text : Bytes) (ws : List (Bytes × Kind)) {k : Kind}
    → all_entries p ws ≡ true
    → lookup text ws ≡ some k
    → p text k ≡ true
unfolding lookup
lookup_entry p text [] a e = cc
lookup_entry p text ((word, j) ∷ ws) {k} a e = elim (Bool-cases (bytes_eq word text)) [
  | inl t ↦
      let found : some j ≡ some k = rw (t, lookup) at e in
      let same : j ≡ k = cc in
      let here = (and_true (p word j) (all_entries p ws) a).0 in
      subst (λ x. p text x ≡ true) same
        (subst (λ w. p w j ≡ true) ((bytes_eq_iff word text).0 t) here)
  | inr t ↦
      lookup_entry p text ws (and_true (p word j) (all_entries p ws) a).1 (rw (t, lookup) at e)
]

abbrev spelled : Bytes → Kind → Bool
spelled word k = is_keyword k && bytes_eq (kind_name k) word

keywords_spelled : all_entries spelled keywords ≡ true
unfolding ordinal kind_name bytes_eq
keywords_spelled = refl

lookup_keyword_entry :
    (text : Bytes) (k : Kind)
    → lookup_keyword text ≡ some k
    → (is_keyword k ≡ true) × (kind_name k ≡ text)
unfolding lookup_keyword
lookup_keyword_entry text k e =
    let h = lookup_entry spelled text keywords keywords_spelled e in
    let (keyword, same) = and_true (is_keyword k) (bytes_eq (kind_name k) text) h in
    (keyword, (bytes_eq_iff (kind_name k) text).0 same)

keyword_found : (k : Kind) → is_keyword k ≡ true → lookup_keyword (kind_name k) ≡ some k
unfolding lookup_keyword ordinal kind_name
keyword_found Kind.kw_public h = refl
keyword_found _ h = cc

-- `LookupKeyword` finds a kind for a text exactly when the kind is a keyword's and `String` gives
-- the text as its name.
pub lookup_keyword_iff :
    (text : Bytes) (k : Kind)
    → (lookup_keyword text ≡ some k) ↔ (is_keyword k ≡ true) × (kind_name k ≡ text)
lookup_keyword_iff text k =
    (lookup_keyword_entry text k, λ h. ap lookup_keyword (sym h.1) ∙ keyword_found k h.0)
