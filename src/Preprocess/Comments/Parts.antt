-- ===== src/Preprocess/Comments/Parts.antt =====
-- The parts of a line with comments, and how what is stripped is put together from them.
use pawn_parser.Prelude.{
  ℕ, ◌≡◌, ◌≢◌, refl, sym, ap, ◌∙◌, Bool, true, false, ◌&&◌, ◌||◌, [], ◌∷◌, ◌++◌, map, Bytes, ◌⊎◌,
  inl, inr, arith, ◌==◌, if◌then◌else◌, Bool-cases,
}
use pawn_parser.Preprocess.Pattern.{is_quote}

-- The bytes of a text in quotes behind its first quote, and what follows it: up to the next quote that
-- no control byte escapes, or to the end.
pub data Literal (control quote : ℕ) : Bytes → Bytes → Type 0 where
  closed : (rest : Bytes) → quote ≢ control → Literal control quote (quote ∷ []) rest
  escaped :
      (c : ℕ) {body rest : Bytes}
      → Literal control quote body rest
      → Literal control quote (control ∷ c ∷ body) rest
  plain :
      (c : ℕ) {body rest : Bytes}
      → c ≢ control
      → c ≢ quote
      → Literal control quote body rest
      → Literal control quote (c ∷ body) rest
  ends : Literal control quote [] []
  ends_in : (c : ℕ) → Literal control quote (c ∷ []) []

-- A byte begins a text.
abbrev begins : ℕ → Bytes → Bool
begins c [] = false
begins c (d ∷ ds) = d == c

-- The bytes of a comment behind its two first ones, and what follows it: up to the first star with a
-- slash behind it, or to the end.
pub data Comment : Bytes → Bytes → Type 0 where
  closed : (rest : Bytes) → Comment (b'*' ∷ b'/' ∷ []) rest
  inside :
      (c : ℕ) {body rest : Bytes}
      → (c == b'*' && begins b'/' (body ++ rest)) ≡ false
      → Comment body rest
      → Comment (c ∷ body) rest
  ends : Comment [] []

-- A blank for each byte that does not end a line.
abbrev hidden : ℕ → ℕ
hidden c = if c == b'\n' || c == b'\r' then c else b' '

-- A text in code, and what is left of it: texts in quotes and code stay, a comment is blanks and line
-- ends, and two slashes with all that follows are one line end.
pub data Strips (control : ℕ) : Bytes → Bytes → Type 0 where
  end_of : Strips control [] []
  code :
      (c : ℕ) {cs ds : Bytes}
      → (c == b'"' || c == b'\'') ≡ false
      → (c == b'/' && (begins b'/' cs || begins b'*' cs)) ≡ false
      → Strips control cs ds
      → Strips control (c ∷ cs) (c ∷ ds)
  quoted :
      (quote : ℕ) {body cs ds : Bytes}
      → (quote ≡ b'"') ⊎ (quote ≡ b'\'')
      → Literal control quote body cs
      → Strips control cs ds
      → Strips control (quote ∷ (body ++ cs)) (quote ∷ (body ++ ds))
  commented :
      {body cs ds : Bytes}
      → Comment body cs
      → Strips control cs ds
      → Strips control (b'/' ∷ b'*' ∷ (body ++ cs)) (b' ' ∷ b' ' ∷ (map hidden body ++ ds))
  cut : (cs : Bytes) → Strips control (b'/' ∷ b'/' ∷ cs) (b'\n' ∷ [])

-- A text is split by what goes on in it, and so is its stripped form.
pub record InQuotes (control quote : ℕ) (cs out : Bytes) : Type 0 where
  pub body : Bytes
  pub rest : Bytes
  pub stripped : Bytes
  pub text_is : cs ≡ body ++ rest
  pub out_is : out ≡ body ++ stripped
  pub literal : Literal control quote body rest
  pub strips : Strips control rest stripped

pub record InComment (control : ℕ) (cs out : Bytes) : Type 0 where
  pub body : Bytes
  pub rest : Bytes
  pub stripped : Bytes
  pub text_is : cs ≡ body ++ rest
  pub out_is : out ≡ map hidden body ++ stripped
  pub comment : Comment body rest
  pub strips : Strips control rest stripped

pub from_quotes :
    (control quote : ℕ) (cs out : Bytes)
    → (quote == b'"' || quote == b'\'') ≡ true
    → InQuotes control quote cs out
    → Strips control (quote ∷ cs) (quote ∷ out)
from_quotes control quote cs out e q =
    rw (q.text_is, q.out_is) (quoted quote (which (Bool-cases (quote == b'"'))) q.literal q.strips)
  where
    which : ((quote == b'"') ≡ true) ⊎ ((quote == b'"') ≡ false) → (quote ≡ b'"') ⊎ (quote ≡ b'\'')
    which (inl a) = inl (ground arith)
    which (inr a) = inr (ground arith)

pub from_comment :
    (control : ℕ) (cs out : Bytes)
    → InComment control cs out
    → Strips control (b'/' ∷ b'*' ∷ cs) (b' ' ∷ b' ' ∷ out)
from_comment control cs out q = rw (q.text_is, q.out_is) (commented q.comment q.strips)

pub more_quoted :
    (control quote c : ℕ) (cs out : Bytes)
    → c ≢ control
    → c ≢ quote
    → InQuotes control quote cs out
    → InQuotes control quote (c ∷ cs) (c ∷ out)
more_quoted control quote c cs out a b q = record {
  body = c ∷ q.body;
  rest = q.rest;
  stripped = q.stripped;
  text_is = ap (◌∷◌ c) q.text_is;
  out_is = ap (◌∷◌ c) q.out_is;
  literal = plain c a b q.literal;
  strips = q.strips;
}

pub more_escaped :
    (control quote d : ℕ) (cs out : Bytes)
    → InQuotes control quote cs out
    → InQuotes control quote (control ∷ d ∷ cs) (control ∷ d ∷ out)
more_escaped control quote d cs out q = record {
  body = control ∷ d ∷ q.body;
  rest = q.rest;
  stripped = q.stripped;
  text_is = ap (λ x. control ∷ d ∷ x) q.text_is;
  out_is = ap (λ x. control ∷ d ∷ x) q.out_is;
  literal = escaped d q.literal;
  strips = q.strips;
}

pub more_commented :
    (control c : ℕ) (cs out : Bytes)
    → (c == b'*' && begins b'/' cs) ≡ false
    → InComment control cs out
    → InComment control (c ∷ cs) (hidden c ∷ out)
more_commented control c cs out e q = record {
  body = c ∷ q.body;
  rest = q.rest;
  stripped = q.stripped;
  text_is = ap (◌∷◌ c) q.text_is;
  out_is = ap (λ x. hidden c ∷ x) q.out_is;
  comment = inside c (ap (λ x. c == b'*' && begins b'/' x) (sym q.text_is) ∙ e) q.comment;
  strips = q.strips;
}

-- A text of one byte.
pub no_slash : (c : ℕ) → (c == b'/' && (begins b'/' [] || begins b'*' [])) ≡ false
no_slash c = ground arith

pub in_empty : (control quote : ℕ) → InQuotes control quote [] []
in_empty control quote = record {
  body = [];
  rest = [];
  stripped = [];
  text_is = refl;
  out_is = refl;
  literal = ends;
  strips = end_of;
}

pub quoted_last : (control c : ℕ) → is_quote c ≡ true → Strips control (c ∷ []) (c ∷ [])
quoted_last control c e = from_quotes control c [] [] e (in_empty control c)

pub in_last : (control quote c : ℕ) → InQuotes control quote (c ∷ []) (c ∷ [])
in_last control quote c = record {
  body = c ∷ [];
  rest = [];
  stripped = [];
  text_is = refl;
  out_is = refl;
  literal = ends_in c;
  strips = end_of;
}

pub in_closed :
    (control quote : ℕ) (cs out : Bytes)
    → quote ≢ control
    → Strips control cs out
    → InQuotes control quote (quote ∷ cs) (quote ∷ out)
in_closed control quote cs out n s = record {
  body = quote ∷ [];
  rest = cs;
  stripped = out;
  text_is = refl;
  out_is = refl;
  literal = closed cs n;
  strips = s;
}

pub comment_empty : (control : ℕ) → InComment control [] []
comment_empty control = record {
  body = [];
  rest = [];
  stripped = [];
  text_is = refl;
  out_is = refl;
  comment = ends;
  strips = end_of;
}

pub comment_closed :
    (control : ℕ) (cs out : Bytes)
    → Strips control cs out
    → InComment control (b'*' ∷ b'/' ∷ cs) (b' ' ∷ b' ' ∷ out)
comment_closed control cs out s = record {
  body = b'*' ∷ b'/' ∷ [];
  rest = cs;
  stripped = out;
  text_is = refl;
  out_is = refl;
  comment = closed cs;
  strips = s;
}
