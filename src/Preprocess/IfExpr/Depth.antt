-- ===== src/Preprocess/IfExpr/Depth.antt =====
-- Names that stand for each other end, since the guard keeps each from being entered twice.
use pawn_parser.Prelude.{
  ℕ, zero, suc, ◌≤◌, ◌<◌, ◌≡◌, refl, sym, ap, ◌∙◌, true, false, List, [], ◌∷◌, Bytes, bytes_eq,
  bytes_eq_iff, Option, some, arith, Bool-cases, Option-cases, inl, inr, length,
}
use pawn_parser.Preprocess.Macros.{Ptok}
use pawn_parser.Preprocess.Eval.{Env, guarded}
use pawn_parser.Preprocess.IfExpr.{body_of, eval_ident, eval_condition}
use pawn_parser.Preprocess.IfExpr.Progress.{eval_all_ends}

-- How many of the names the guard does not hold.
free : List Bytes → List Bytes → ℕ
free guard [] = 0
free guard (n ∷ ns) = elim (guarded guard n) [ true ↦ free guard ns | false ↦ suc (free guard ns) ]

free-length : (guard names : List Bytes) → free guard names ≤ length names
unfolding free
free-length guard [] = omega arith
free-length guard (n ∷ ns) = elim (Bool-cases (guarded guard n)) [
  | inl e ↦ rw (e, free) (omega (arith, free-length guard ns))
  | inr e ↦ rw (e, free) (omega (arith, free-length guard ns))
]

guarded-cons :
    (guard : List Bytes) (name n : Bytes) → guarded guard n ≡ true → guarded (name ∷ guard) n ≡ true
unfolding guarded
guarded-cons guard name n h = ground arith

free_mono : (guard names : List Bytes) (name : Bytes) → free (name ∷ guard) names ≤ free guard names
unfolding free
free_mono guard [] name = omega arith
free_mono guard (n ∷ ns) name = elim (Bool-cases (guarded guard n)) [
  | inl e ↦ rw (guarded-cons guard name n e, e, free) (free_mono guard ns name)
  | inr e ↦ elim (Bool-cases (guarded (name ∷ guard) n)) [
    | inl k ↦ rw (k, e, free) (omega (arith, free_mono guard ns name))
    | inr k ↦ rw (k, e, free) (omega (arith, free_mono guard ns name))
  ]
]

guarded_self :
    (guard : List Bytes) (name n : Bytes) → bytes_eq n name ≡ true → guarded (name ∷ guard) n ≡ true
unfolding guarded
guarded_self guard name n h = rw ((bytes_eq_iff name n).1 (sym ((bytes_eq_iff n name).0 h))) refl

not_guarded :
    (guard : List Bytes) (name n : Bytes)
    → bytes_eq n name ≡ true
    → guarded guard name ≡ false
    → guarded guard n ≡ false
not_guarded guard name n h k = ap (guarded guard) ((bytes_eq_iff n name).0 h) ∙ k

-- A name that was not in the guard leaves fewer free names behind.
free-less :
    (guard names : List Bytes) (name : Bytes)
    → guarded names name ≡ true
    → guarded guard name ≡ false
    → free (name ∷ guard) names < free guard names
unfolding free guarded
free-less guard [] name m h = absurd (ground arith)
free-less guard (n ∷ ns) name m h = elim (Bool-cases (bytes_eq n name)) [
  | inl e ↦
      rw (guarded_self guard name n e, not_guarded guard name n e h, free)
        (omega (arith, free_mono guard ns name))
  | inr e ↦
      let rest = free-less guard ns name (ground arith) h in
      elim (Bool-cases (guarded guard n)) [
        | inl g ↦ rw (guarded-cons guard name n g, g, free) rest
        | inr g ↦ elim (Bool-cases (guarded (name ∷ guard) n)) [
          | inl k ↦ rw (k, g, free) (omega (arith, rest))
          | inr k ↦ rw (k, g, free) (omega (arith, rest))
        ]
      ]
]

module _ (env : Env) (names : List Bytes)
    (listed : (name : Bytes) (body : List Ptok)
      → body_of env name ≡ some body
      → guarded names name ≡ true) where
  eval_ident_ends :
      (depth : ℕ) (guard : List Bytes) (name : Bytes)
      → free guard names < depth
      → (v : Option ℕ) × (eval_ident depth env guard name ≡ some v)
  unfolding eval_ident
  eval_ident_ends zero guard name h = absurd (omega arith)
  eval_ident_ends (suc depth) guard name h = elim (Bool-cases (guarded guard name)) [
    | inl g ↦ (some 0, rw (g, eval_ident) refl)
    | inr g ↦ elim (Option-cases (body_of env name)) [
      | inl b ↦ (some 0, rw (g, b, eval_ident) refl)
      | inr (body, b) ↦
          let less = free-less guard names name (listed name body b) g in
          let (v, e) =
            eval_all_ends body env (eval_ident depth env (name ∷ guard))
              (λ n. eval_ident_ends depth (name ∷ guard) n (omega arith)) in
          (v, rw (g, b, eval_ident) e)
    ]
  ]

  -- If every name that stands for tokens is among `names`, then with fuel for one body more than
  -- there are names, every condition ends: with a value, or as unknown.
  pub eval_condition_ends :
      (depth : ℕ) (toks : List Ptok)
      → length names < depth
      → (v : Option ℕ) × (eval_condition depth env toks ≡ some v)
  unfolding eval_condition
  eval_condition_ends depth toks h =
      eval_all_ends toks env (eval_ident depth env [])
        (λ n. eval_ident_ends depth [] n (omega (arith, free-length [] names)))
