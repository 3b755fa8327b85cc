-- ===== src/Preprocess/IfExpr/Progress.antt =====
-- The evaluator ends on every list of tokens, when the values of names do.
use pawn_parser.Prelude.{
  ℕ, zero, suc, ◌+◌, ◌≤◌, ◌<◌, ◌≡◌, refl, ap, ◌∙◌, Bool, true, false, List, [], Bytes, Option, none,
  some, arith, if◌then◌else◌, if_cases, Bool-cases, inl, inr, length, not, ◌||◌, ◌==◌,
}
use pawn_parser.Token.Kind.{Kind, kind_eq}
use pawn_parser.Preprocess.Macros.{Ptok}
use pawn_parser.Preprocess.Eval.{Env, Eval, Result, ◌>>=◌, applied}
use pawn_parser.Preprocess.IfExpr.{
  cur, at_kind, step, selector_at, selectors_loop, close, sized, parse_sizeof, parse_defined,
  parse_ident, parse_primary, unary_switch, parse_unary, eval_all, parse_logical_or,
}
use pawn_parser.Preprocess.IfExpr.Ends.{
  Ends, Ends-bind, Ends-from, applied-pos, left, step-le, step-left, Good, parse_logical_or-Good,
}

module _ (toks : List Ptok) where
  -- A token of a kind is no end of the file, when the kind is not.
  kind-left :
      (s : Eval) (kind : Kind)
      → kind_eq kind Kind.eof ≡ false
      → (cur toks s).kind ≡ kind
      → suc (left toks (step toks s)) ≤ left toks s
  kind-left s kind n e = step-left toks s (ap (λ k. kind_eq k Kind.eof) e ∙ n)

  kind_eq-kind :
      (a b : Kind) → kind_eq a b ≡ true → kind_eq b Kind.eof ≡ false → kind_eq a Kind.eof ≡ false
  unfolding kind_eq
  kind_eq-kind a b h n = ground arith

  fail_Ends : (s : Eval) → Ends {A = ℕ} s (some (0, record s { unknown = true }))
  fail_Ends s = (0, record s { unknown = true }, refl, omega arith)

  close-Ends : (b : Bool) (v : ℕ) (s : Eval) → Ends s (close toks b v s)
  unfolding close
  close-Ends false v s = (v, s, refl, omega arith)
  close-Ends true v s =
      if_cases (Ends s) (at_kind toks s Kind.rparen) _ _
        (λ _. (v, step toks s, refl, step-le toks s)) (λ _. fail_Ends s)

  applied-Ends : (o : Option ℕ) (s : Eval) → Ends s (some (applied o s))
  applied-Ends o s =
      ((applied o s).0, (applied o s).1, refl, let e = applied-pos o s in omega arith)

  selector_at-le : (s : Eval) → s.pos ≤ (selector_at toks s).1.pos
  unfolding selector_at
  selector_at-le s =
      if_cases (λ (p : Bytes × Eval). s.pos ≤ p.1.pos)
        (at_kind toks s Kind.identifier || at_kind toks s Kind.int_literal) _ _
        (λ _. step-le toks s) (λ _. omega arith)

  bracket-not_eof : kind_eq Kind.l_bracket Kind.eof ≡ false
  unfolding kind_eq
  bracket-not_eof = refl

  selectors_loop-Ends :
      (size : ℕ) (found : List Bytes) (s : Eval)
      → left toks s < size
      → Ends s (selectors_loop toks size found s)
  unfolding selectors_loop
  selectors_loop-Ends zero found s h = absurd (omega arith)
  selectors_loop-Ends (suc size) found s h = elim (Bool-cases (at_kind toks s Kind.l_bracket)) [
    | inl m ↦
        let l =
          step-left toks s (kind_eq-kind (cur toks s).kind Kind.l_bracket m bracket-not_eof) in
        let t = (selector_at toks (step toks s)).1 in
        let q = selector_at-le (step toks s) in
        elim (Bool-cases (at_kind toks t Kind.r_bracket)) [
          | inl r ↦
              rw (m, r, selectors_loop)
                (Ends-from s (step toks t) _ (omega (arith, step-le toks t, step-le toks s))
                  (selectors_loop-Ends size _ (step toks t) (omega (arith, step-le toks t))))
          | inr r ↦ rw (m, r, selectors_loop) (none, t, refl, omega (arith, step-le toks s))
        ]
    | inr m ↦ rw (m, selectors_loop) (some found, s, refl, omega arith)
  ]

  -- What may stand before a name: an opening parenthesis.
  paren_le : (s : Eval) → s.pos ≤ (if at_kind toks s Kind.lparen then step toks s else s).pos
  paren_le s =
      if_cases (λ (t : Eval). s.pos ≤ t.pos) (at_kind toks s Kind.lparen) _ _ (λ _. step-le toks s)
        (λ _. omega arith)

  module _ (env : Env) (ident : Bytes → Option (Option ℕ))
      (known : (name : Bytes) → (v : Option ℕ) × (ident name ≡ some v)) where
    sized-Ends :
        (paren : Bool) (name : Bytes) (found : Option (List Bytes)) (s : Eval)
        → Ends s (sized toks env ident paren name (found, s))
    unfolding sized
    sized-Ends paren name none s = fail_Ends s
    sized-Ends false name (some found) s = applied-Ends (env.declarations.size_of name found) s
    sized-Ends true name (some found) s =
        if_cases (Ends s) (at_kind toks s Kind.rparen) _ _
          (λ _.
            Ends-from s (step toks s) _ (step-le toks s)
              (applied-Ends (env.declarations.size_of name found) (step toks s)))
          (λ _. fail_Ends s)

    parse_sizeof-Ends : (s : Eval) → Ends s (parse_sizeof toks env ident s)
    unfolding parse_sizeof
    parse_sizeof-Ends s =
        let paren = at_kind toks s Kind.lparen in
        let t : Eval = if paren then step toks s else s in
        Ends-from s t _ (paren_le s) (
          if_cases (Ends t) (at_kind toks t Kind.identifier) _ _
            (λ _. Ends-from t (step toks t) _ (step-le toks t) (
              Ends-bind (step toks t) (selectors_loop toks (length toks + 1) [] (step toks t)) _
                (selectors_loop-Ends (length toks + 1) [] (step toks t) (omega arith))
                (λ found u _. sized-Ends paren (cur toks t).text found u)))
            (λ _. fail_Ends t))

    parse_defined-Ends : (s : Eval) → Ends s (parse_defined toks env ident s)
    unfolding parse_defined
    parse_defined-Ends s =
        let paren = at_kind toks s Kind.lparen in
        let t : Eval = if paren then step toks s else s in
        Ends-from s t _ (paren_le s) (
          if_cases (Ends t) (at_kind toks t Kind.identifier) _ _
            (λ _. Ends-from t (step toks t) _ (step-le toks t) (close-Ends paren _ (step toks t)))
            (λ _. fail_Ends t))

    parse_ident-Ends : (name : Bytes) (s : Eval) → Ends s (parse_ident toks env ident name s)
    unfolding parse_ident
    parse_ident-Ends name s = let (v, e) = known name in rw e (applied-Ends v s)

    parse_primary-Ends :
        (n : ℕ) (unary : Eval → Result) (kind : Kind) (s : Eval)
        → Good toks n unary
        → left toks s < suc n
        → (cur toks s).kind ≡ kind
        → Ends s (parse_primary toks env ident unary kind s)
    unfolding parse_primary kind_eq
    parse_primary-Ends n unary Kind.int_literal s g h e = (_, _, refl, step-le toks s)
    parse_primary-Ends n unary Kind.char_literal s g h e = (_, _, refl, step-le toks s)
    parse_primary-Ends n unary Kind.lparen s g h e =
        let l = kind-left s Kind.lparen refl e in
        Ends-from s (step toks s) _ (step-le toks s) (
          Ends-bind (step toks s) (parse_logical_or toks unary (step toks s)) _
            (parse_logical_or-Good toks n unary g (step toks s) (omega arith))
            (λ v t _. close-Ends true v t))
    parse_primary-Ends n unary Kind.kw_defined s g h e =
        Ends-from s (step toks s) _ (step-le toks s) (parse_defined-Ends (step toks s))
    parse_primary-Ends n unary Kind.identifier s g h e =
        Ends-from s (step toks s) _ (step-le toks s)
          (parse_ident-Ends (cur toks s).text (step toks s))
    parse_primary-Ends n unary _ s g h e = fail_Ends s

    -- The operand of a prefix operator, and the operator on its value.
    prefix_Ends :
        (n : ℕ) (unary : Eval → Result) (f : ℕ × Eval → Result) (kind : Kind) (s : Eval)
        → Good toks n unary
        → left toks s < suc n
        → kind_eq kind Kind.eof ≡ false
        → (cur toks s).kind ≡ kind
        → ((v : ℕ) (t : Eval) → Ends t (f (v, t)))
        → Ends s (unary (step toks s) >>= f)
    prefix_Ends n unary f kind s g h m e k =
        let l = kind-left s kind m e in
        Ends-from s (step toks s) _ (step-le toks s) (
          Ends-bind (step toks s) (unary (step toks s)) f (g (step toks s) (omega arith))
            (λ v t _. k v t))

    unary_switch-Ends :
        (n : ℕ) (unary : Eval → Result) (kind : Kind) (s : Eval)
        → Good toks n unary
        → left toks s < suc n
        → (cur toks s).kind ≡ kind
        → Ends s (unary_switch toks env ident unary kind s)
    unfolding unary_switch kind_eq
    unary_switch-Ends n unary Kind.bang s g h e =
        prefix_Ends n unary _ Kind.bang s g h refl e (λ v t. (_, t, refl, omega arith))
    unary_switch-Ends n unary Kind.minus s g h e =
        prefix_Ends n unary _ Kind.minus s g h refl e (λ v t. (_, t, refl, omega arith))
    unary_switch-Ends n unary Kind.plus s g h e =
        let l = kind-left s Kind.plus refl e in
        Ends-from s (step toks s) _ (step-le toks s) (g (step toks s) (omega arith))
    unary_switch-Ends n unary Kind.tilde s g h e =
        prefix_Ends n unary _ Kind.tilde s g h refl e (λ v t. (_, t, refl, omega arith))
    unary_switch-Ends n unary Kind.kw_sizeof s g h e =
        Ends-from s (step toks s) _ (step-le toks s) (parse_sizeof-Ends (step toks s))
    unary_switch-Ends n unary kind s g h e = parse_primary-Ends n unary kind s g h e

    parse_unary-Good : (n : ℕ) → Good toks n (parse_unary toks env ident n)
    unfolding parse_unary
    parse_unary-Good zero s h = absurd (omega arith)
    parse_unary-Good (suc n) s h =
        unary_switch-Ends n (parse_unary toks env ident n) (cur toks s).kind s (parse_unary-Good n)
          h refl

    -- The evaluator ends on every list of tokens, if the value of every name does.
    pub eval_all_ends : (v : Option ℕ) × (eval_all toks env ident ≡ some v)
    unfolding eval_all
    eval_all_ends =
        let (v, t, e, _) =
          parse_logical_or-Good toks (length toks + 2) _ (parse_unary-Good (length toks + 2))
            (record { pos = 0; unknown = false }) (omega arith) in
        (
          _,
          ap
              (λ (o : Result). o >>= λ (w, s).
                some (if s.unknown || not (s.pos == length toks) then none else some w))
              e,
        )
