-- ===== src/Preprocess/IfExpr/Ends.antt =====
-- The loops of `parseBinary` and `parseSizeof` end, for every way of the operands to end.
use pawn_parser.Prelude.{
  ℕ, zero, suc, ◌+◌, ◌-◌, ◌≤◌, ◌<◌, ◌≡◌, refl, ap, ◌∙◌, true, false, List, [], ◌∷◌, Option, none,
  some, arith, leb, if_cases, Bool-cases, inl, inr, length,
}
use pawn_parser.Token.Kind.{Kind, kind_eq}
use pawn_parser.Preprocess.Macros.{Ptok}
use pawn_parser.Preprocess.Eval.{Eval, Result, ◌>>=◌, token_at, apply, is_among, applied}
use pawn_parser.Preprocess.IfExpr.{
  cur, step, binary_loop, parse_binary, parse_level, parse_logical_or, levels,
}

-- A run has fuel, and ends at its first position or behind it.
abbrev pub Ends : {A : Type 0} → Eval → Option (A × Eval) → Type 0
Ends {A} s o = (a : A) × (t : Eval) × (o ≡ some (a, t)) × (s.pos ≤ t.pos)

pub Ends-bind :
    {A B : Type 0} (s : Eval) (m : Option (A × Eval)) (f : A × Eval → Option (B × Eval))
    → Ends s m
    → ((a : A) (t : Eval) → s.pos ≤ t.pos → Ends t (f (a, t)))
    → Ends s (m >>= f)
Ends-bind s m f (a, t, e, h) k =
    let (b, u, e', h') = k a t h in (b, u, ap (λ o. o >>= f) e ∙ e', omega arith)

pub Ends-from :
    {A : Type 0} (s t : Eval) (o : Option (A × Eval)) → s.pos ≤ t.pos → Ends t o → Ends s o
Ends-from s t o h (a, u, e, k) = (a, u, e, omega arith)

pub applied-pos : (o : Option ℕ) (t : Eval) → (applied o t).1.pos ≡ t.pos
applied-pos none t = refl
applied-pos (some v) t = refl

token_at-inside :
    (toks : List Ptok) (i : ℕ) → kind_eq (token_at toks i).kind Kind.eof ≡ false → i < length toks
unfolding token_at kind_eq
token_at-inside [] i h = absurd (ground arith)
token_at-inside (t ∷ ts) zero h = omega arith
token_at-inside (t ∷ ts) (suc i) h = omega (arith, token_at-inside ts i h)

is_among-not_eof :
    (ops : List Kind) (kind : Kind)
    → is_among ops Kind.eof ≡ false
    → is_among ops kind ≡ true
    → kind_eq kind Kind.eof ≡ false
unfolding is_among kind_eq
is_among-not_eof [] kind n h = absurd (ground arith)
is_among-not_eof (op ∷ ops) kind n h = ground (arith, is_among-not_eof ops kind)

module _ (toks : List Ptok) where
  -- How many tokens are left.
  abbrev pub left : Eval → ℕ
  left s = length toks - s.pos

  pub step-le : (s : Eval) → s.pos ≤ (step toks s).pos
  unfolding step
  step-le s =
      if_cases (λ (t : Eval). s.pos ≤ t.pos) (leb (length toks) s.pos) _ _ (λ _. omega arith)
        (λ _. omega arith)

  -- A token of another kind than the end of the file is there to be taken.
  pub step-left :
      (s : Eval) → kind_eq (cur toks s).kind Kind.eof ≡ false → suc (left (step toks s)) ≤ left s
  unfolding step
  step-left s h =
      let i = token_at-inside toks s.pos h in
      if_cases (λ (t : Eval). suc (left t) ≤ left s) (leb (length toks) s.pos) _ _
        (λ e. absurd (ground arith)) (λ _. omega arith)

  -- A parser that ends wherever less than `n` tokens are left.
  abbrev pub Good : ℕ → (Eval → Result) → Type 0
  Good n next = (s : Eval) → left s < n → Ends s (next s)

  binary_loop-Ends :
      (size n : ℕ) (next : Eval → Result) (ops : List Kind) (v : ℕ) (s : Eval)
      → Good n next
      → is_among ops Kind.eof ≡ false
      → left s < size
      → left s < n
      → Ends s (binary_loop toks size next ops (v, s))
  unfolding binary_loop
  binary_loop-Ends zero n next ops v s g e h k = absurd (omega arith)
  binary_loop-Ends (suc size) n next ops v s g e h k =
      elim (Bool-cases (is_among ops (cur toks s).kind)) [
        | inl m ↦
            let l = step-left s (is_among-not_eof ops (cur toks s).kind e m) in
            rw (m, binary_loop)
              (Ends-from s (step toks s) _ (step-le s) (
                Ends-bind (step toks s) (next (step toks s)) _ (g (step toks s) (omega arith))
                  (λ r t q.
                    let p = applied-pos (apply (cur toks s).kind v r) t in
                    Ends-from t (applied (apply (cur toks s).kind v r) t).1 _ (omega arith)
                      (binary_loop-Ends size n next ops _ _ g e (omega arith) (omega arith)))))
        | inr m ↦ rw (m, binary_loop) (v, s, refl, omega arith)
      ]

  -- No level has the end of the file for an operator.
  abbrev pub NoEof : List (List Kind) → Type 0
  NoEof [] = Unit
  NoEof (ops ∷ rest) = (is_among ops Kind.eof ≡ false) × NoEof rest

  parse_level-Good :
      (size n : ℕ) (ls : List (List Kind)) (unary : Eval → Result)
      → length toks < size
      → NoEof ls
      → Good n unary
      → Good n (parse_level toks size ls unary)
  unfolding parse_level parse_binary
  parse_level-Good size n [] unary z e g s h = g s h
  parse_level-Good size n (ops ∷ ls) unary z (e, es) g s h =
      Ends-bind s (parse_level toks size ls unary s) _ (parse_level-Good size n ls unary z es g s h)
        (λ v t q.
          binary_loop-Ends size n (parse_level toks size ls unary) ops v t
            (parse_level-Good size n ls unary z es g) e (omega arith) (omega arith))

  pub parse_logical_or-Good :
      (n : ℕ) (unary : Eval → Result) → Good n unary → Good n (parse_logical_or toks unary)
  unfolding parse_logical_or is_among kind_eq
  parse_logical_or-Good n unary g =
      parse_level-Good (length toks + 1) n (levels toks) unary (omega arith)
        (refl, (refl, (refl, (refl, (refl, (refl, (refl, (refl, (refl, (refl, tt)))))))))) g
