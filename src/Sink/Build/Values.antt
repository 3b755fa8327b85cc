-- ===== src/Sink/Build/Values.antt =====
-- Changes to the errors and the trivia of new nodes leave what was there before.
use pawn_parser.Prelude.{
  ap, take-length, get_or-beyond, ℕ, ◌≤◌, ◌≡◌, ◌≢◌, sym, subst, ◌∙◌, inl, inr, [], ◌∷◌, ◌++◌, arith,
  ◌==◌, if_cases, length, get_or, take, length-set, length-append,
}
use pawn_parser.Sink.Sparse.{Sparse, ensure_value, update}
use pawn_parser.Sink.Build.{cut_sparse}
use pawn_parser.Sink.Build.Columns.{
  take-set_behind, take-append_behind, get_or-snoc_default, get_or-set_either,
}

module _ {T : Type 0} (blank : T) (old : Sparse T) where
  -- The values begin as those of `old`, and new nodes have only new values.
  pub record Widened (t : Sparse T) : Type 0 where
    pub ids_are : take (length old.ids) t.ids ≡ old.ids
    pub values_are : take (length old.values) t.values ≡ old.values
    pub ids_grow : length old.ids ≤ length t.ids
    pub values_grow : length old.values ≤ length t.values
    pub new_values :
        (n : ℕ) → length old.ids ≤ n → get_or t.ids n 0 ≢ 0 → length old.values ≤ get_or t.ids n 0

  pub node-Widened : (t : Sparse T) → Widened t → Widened (record t { ids = t.ids ++ (0 ∷ []) })
  node-Widened t g = record {
    ids_are = take-append_behind (length old.ids) t.ids (0 ∷ []) g.ids_grow ∙ g.ids_are;
    values_are = g.values_are;
    ids_grow = omega (arith, g.ids_grow, length-append t.ids (0 ∷ []));
    values_grow = g.values_grow;
    new_values = λ n h r.
        let e = get_or-snoc_default t.ids n 0 in
        subst (λ x. length old.values ≤ x) (sym e) (g.new_values n h (λ z. r (e ∙ z)));
  }

  ensure_value-Widened :
      (n : ℕ) (t : Sparse T)
      → length old.ids ≤ n
      → Widened t
      → (length old.values ≤ (ensure_value blank n t).0) × Widened (ensure_value blank n t).1
  unfolding ensure_value
  ensure_value-Widened n t h g =
      if_cases (λ (p : ℕ × Sparse T). (length old.values ≤ p.0) × Widened p.1)
        (get_or t.ids n 0 == 0) _ _
        (λ e. (
          g.values_grow,
          record {
            ids_are = take-set_behind (length old.ids) t.ids n (length t.values) h ∙ g.ids_are;
            values_are =
                take-append_behind (length old.values) t.values (blank ∷ []) g.values_grow
                ∙ g.values_are;
            ids_grow = omega (arith, g.ids_grow, length-set t.ids n (length t.values));
            values_grow = omega (arith, g.values_grow, length-append t.values (blank ∷ []));
            new_values = λ m k r. elim (get_or-set_either t.ids n m (length t.values) 0) [
              | inl f ↦ omega (arith, f, g.values_grow)
              | inr f ↦
                  subst (λ x. length old.values ≤ x) (sym f) (g.new_values m k (λ z. r (f ∙ z)))
            ];
          },
        ))
        (λ e. (g.new_values n h (λ z. absurd (ground arith)), g))

  pub update-Widened :
      (n : ℕ) (f : T → T) (t : Sparse T)
      → length old.ids ≤ n
      → Widened t
      → Widened (update blank n f t)
  unfolding update
  update-Widened n f t h g =
      let (a, b) = ensure_value-Widened n t h g in
      let (id, u) = ensure_value blank n t in
      record {
        ids_are = b.ids_are;
        values_are = take-set_behind (length old.values) u.values id _ a ∙ b.values_are;
        ids_grow = b.ids_grow;
        values_grow =
            omega (arith, b.values_grow, length-set u.values id (f (get_or u.values id blank)));
        new_values = b.new_values;
      }

  pub self-Widened : Widened old
  self-Widened = record {
    ids_are = take-length (length old.ids) old.ids (omega arith);
    values_are = take-length (length old.values) old.values (omega arith);
    ids_grow = omega arith;
    values_grow = omega arith;
    new_values = λ n h r. absurd (r (get_or-beyond old.ids n 0 h));
  }

  pub Widened-cut :
      (t : Sparse T) {nodes : ℕ}
      → length old.ids ≡ nodes
      → Widened t
      → cut_sparse nodes (length old.values) t ≡ old
  Widened-cut t e g =
      λ i. record { ids = (ap (λ n. take n t.ids) (sym e) ∙ g.ids_are) i; values = g.values_are i }
