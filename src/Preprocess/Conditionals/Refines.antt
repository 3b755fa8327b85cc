-- ===== src/Preprocess/Conditionals/Refines.antt =====
-- The stack of conditionals gives a nested text its meaning.
use pawn_parser.Prelude.{
  ℕ, zero, suc, ◌-◌, ◌≤◌, ◌<◌, ◌≡◌, refl, sym, ap, ap₂, ◌∙◌, true, false, not, ◌&&◌, List, [], ◌∷◌,
  ◌++◌, Bytes, ◌⊎◌, inl, inr, arith, if◌then◌else◌, length,
}
use pawn_parser.Preprocess.Frame.{CondFrame, Frame, top_active, current_active}
use pawn_parser.Preprocess.Conditionals.{Engine, Evaluator}
use pawn_parser.Preprocess.Conditionals.Structured.{
  Seen, seen, skip, skip_arms, Event, on_if, on_elseif, on_else, on_endif, Blocks, done,
  conditional, Arms, endif, elseif, otherwise, flatten, flatten_arms, step, run, holds, meaning,
  meaning_arms,
}
use pawn_parser.Preprocess.Conditionals.Cores.{Leaves, Kept}
use pawn_parser.Preprocess.Conditionals.Steps.{
  Leaves-to, combine, combine_next, combine_text, if_same, if_false, if_not_taken, world_after,
  world_after_arms, step_text, After, After-append, step_if, step_if_beyond, step_endif,
  step_elseif, step_else,
}

module _ {A W : Type 0} (eval : Evaluator W) (limit : ℕ) (act : A → Seen W → Seen W) where
  module _ (source : Bytes) where
    abbrev meant : ℕ → Blocks A → Seen W → Seen W
    meant room bs w = meaning eval limit act source room bs w

    abbrev meant_arms : ℕ → Arms A → Seen W → Seen W
    meant_arms room arms w = meaning_arms eval limit act source room arms w

    abbrev skipped : ℕ → Blocks A → Seen W → Seen W
    skipped room bs w = skip eval limit act room bs w

    abbrev skipped_arms : ℕ → Arms A → Seen W → Seen W
    skipped_arms room arms w = skip_arms eval limit act room arms w

    none_left : {n : ℕ} → limit ≤ n → limit - n ≡ 0
    none_left l = omega arith

    one_less : {n : ℕ} → n < limit → limit - n ≡ suc (limit - suc n)
    one_less l = omega arith

    le_or_lt : (a b : ℕ) → (a ≤ b) ⊎ (b < a)
    le_or_lt a b = ground arith

    -- Behind a truncation nothing that is skipped makes a difference.
    mutual
      unfolding skip skip_arms

      skip_truncated : (room : ℕ) (bs : Blocks A) (w : W) → skipped room bs (true, w) ≡ (true, w)
      skip_truncated room done w = refl
      skip_truncated room (Blocks.text a bs) w = skip_truncated room bs w
      skip_truncated zero (conditional site body arms bs) w = skip_truncated zero bs w
      skip_truncated (suc room) (conditional site body arms bs) w =
          ap (λ v. skipped (suc room) bs (skipped_arms room arms v)) (skip_truncated room body w)
          ∙ ap (skipped (suc room) bs) (skip_arms_truncated room arms w)
          ∙ skip_truncated (suc room) bs w

      skip_arms_truncated :
          (room : ℕ) (arms : Arms A) (w : W) → skipped_arms room arms (true, w) ≡ (true, w)
      skip_arms_truncated room (endif hash) w = refl
      skip_arms_truncated room (elseif site body arms) w =
          ap (skipped_arms room arms) (skip_truncated room body w) ∙ skip_arms_truncated room arms w
      skip_arms_truncated room (otherwise hash body end) w = skip_truncated room body w

    mutual
      unfolding run flatten flatten_arms meaning meaning_arms skip skip_arms top_active

      blocks_After :
          (bs : Blocks A) (stack : List CondFrame) (w : Seen W) (s : Engine W × Frame)
          → Leaves stack source w s
          → After eval limit act source stack
              (world_after eval limit act stack source bs w)
              (flatten bs)
              s
      blocks_After done stack w s h = Leaves-to h (sym (if_same (top_active stack) w))
      blocks_After (Blocks.text a bs) stack w s h =
          Leaves-to
            (blocks_After bs stack (if top_active stack then act a w else w)
              (step eval limit act (Event.text a) s)
              (step_text eval limit act source a stack w s h))
            (combine_text (top_active stack) w (act a w) (meant (limit - length stack) bs)
              (skipped (limit - length stack) bs))
      blocks_After (conditional site body arms bs) stack w s h =
          elim (le_or_lt limit (length stack)) [
            | inl l ↦
                let (top, o, t, b, opened) =
                  step_if_beyond eval limit act source site stack w s h l in
                let s1 = step eval limit act (on_if site) s in
                let s2 = run eval limit act (flatten body) s1 in
                let s3 = run eval limit act (flatten_arms arms) s2 in
                let r = limit - suc (length stack) in
                let w1 : Seen W = (true, w.1) in
                let in_body = Leaves-to (blocks_After body (top ∷ stack) w1 s1 opened) (
                  if_false top.branch_active (meant r body w1) (skipped r body w1) b
                  ∙ skip_truncated r body w.1) in
                let closed = Leaves-to (arms_After arms top stack w1 s2 (λ _. (t, b)) in_body) (
                  if_not_taken top.parent_active top.taken (meant_arms r arms w1)
                    (skipped_arms r arms w1) t
                  ∙ skip_arms_truncated r arms w.1) in
                After-append eval limit act source (flatten body) (flatten_arms arms ++ flatten bs)
                  s1
                  (After-append eval limit act source (flatten_arms arms) (flatten bs) s2 (
                    Leaves-to (blocks_After bs stack w1 s3 closed) (
                      ap (λ n. if top_active stack then meant n bs w1 else skipped n bs w1)
                        (none_left l)
                      ∙ ap
                          (λ n.
                            if top_active stack
                            then meant n (conditional site body arms bs) w
                            else skipped n (conditional site body arms bs) w)
                          (sym (none_left l)))))
            | inr l ↦
                let (top, p, b, t, o, opened) = step_if eval limit act source site stack w s h l in
                let a = top_active stack in
                let c = holds eval source w.1 site in
                let r = limit - suc (length stack) in
                let s1 = step eval limit act (on_if site) s in
                let s2 = run eval limit act (flatten body) s1 in
                let s3 = run eval limit act (flatten_arms arms) s2 in
                let w1 = if a && c then meant r body w else skipped r body w in
                let w2 =
                  if a && not (a && c) then meant_arms r arms w1 else skipped_arms r arms w1 in
                let in_body =
                  Leaves-to (blocks_After body (top ∷ stack) w s1 opened)
                    (ap (λ x. if x then meant r body w else skipped r body w) b) in
                let closed =
                  Leaves-to (arms_After arms top stack w1 s2 (λ q. absurd (cc (o, q))) in_body) (
                    ap₂ (λ x y. if x && not y then meant_arms r arms w1 else skipped_arms r arms w1)
                      p t) in
                After-append eval limit act source (flatten body) (flatten_arms arms ++ flatten bs)
                  s1
                  (After-append eval limit act source (flatten_arms arms) (flatten bs) s2 (
                    Leaves-to (blocks_After bs stack w2 s3 closed) (
                      combine a c w (meant r body) (skipped r body) (meant_arms r arms)
                        (skipped_arms r arms) (meant (limit - length stack) bs)
                        (skipped (limit - length stack) bs)
                      ∙ ap
                          (λ n.
                            if a
                            then meant n bs (elim c [
                              | true ↦ skipped_arms r arms (meant r body w)
                              | false ↦ meant_arms r arms (skipped r body w)
                            ])
                            else skipped n bs (skipped_arms r arms (skipped r body w)))
                          (one_less l)
                      ∙ ap
                          (λ n.
                            if a
                            then meant n (conditional site body arms bs) w
                            else skipped n (conditional site body arms bs) w)
                          (sym (one_less l)))))
          ]

      arms_After :
          (arms : Arms A) (top : CondFrame) (below : List CondFrame) (w : Seen W)
          (s : Engine W × Frame)
          → Kept top
          → Leaves (top ∷ below) source w s
          → After eval limit act source below
              (world_after_arms eval limit act top below source arms w)
              (flatten_arms arms)
              s
      arms_After (endif hash) top below w s k h =
          Leaves-to (step_endif eval limit act source hash top below w s h)
            (sym (if_same (top.parent_active && not top.taken) w))
      arms_After (elseif site body arms) top below w s k h =
          let r = limit - suc (length below) in
          let s1 = step eval limit act (on_elseif site) s in
          let s2 = run eval limit act (flatten body) s1 in
          let w0 = skipped r body w in
          elim (step_elseif eval limit act source site top below w s h) [
            | inl (o, l) ↦
                After-append eval limit act source (flatten body) (flatten_arms arms) s1 (
                  Leaves-to
                    (arms_After arms top below w0 s2 k (
                      Leaves-to (blocks_After body (top ∷ below) w s1 l)
                        (if_false top.branch_active (meant r body w) w0 (k o).1)))
                    (if_not_taken top.parent_active top.taken (meant_arms r arms w0)
                        (skipped_arms r arms w0) (k o).0
                      ∙ sym (
                          if_not_taken top.parent_active top.taken
                            (meant_arms r (elseif site body arms) w) (skipped_arms r arms w0)
                            (k o).0)))
            | inr (inl (o, t, (u, p, b, t', o', l))) ↦
                After-append eval limit act source (flatten body) (flatten_arms arms) s1 (
                  Leaves-to
                    (arms_After arms u below w0 s2 (λ q. absurd (cc (o', q)))
                      (Leaves-to (blocks_After body (u ∷ below) w s1 l)
                        (if_false u.branch_active (meant r body w) w0 b)))
                    (if_not_taken u.parent_active u.taken (meant_arms r arms w0)
                        (skipped_arms r arms w0) t'
                      ∙ sym (
                          if_not_taken top.parent_active top.taken
                            (meant_arms r (elseif site body arms) w) (skipped_arms r arms w0) t)))
            | inr (inr (o, t, (u, p, b, t', o', l))) ↦
                let a = top.parent_active in
                let c = holds eval source w.1 site in
                let w1 = if a && c then meant r body w else skipped r body w in
                After-append eval limit act source (flatten body) (flatten_arms arms) s1 (
                  Leaves-to
                    (arms_After arms u below w1 s2 (λ q. absurd (cc (o', q)))
                      (Leaves-to (blocks_After body (u ∷ below) w s1 l)
                        (ap (λ x. if x then meant r body w else skipped r body w) b)))
                    (ap₂
                        (λ x y. if x && not y then meant_arms r arms w1 else skipped_arms r arms w1)
                        p t'
                      ∙ combine_next a c w (meant r body) (skipped r body) (meant_arms r arms)
                          (skipped_arms r arms)
                      ∙ ap
                          (λ x.
                            if a && not x
                            then meant_arms r (elseif site body arms) w
                            else skipped_arms r (elseif site body arms) w)
                          (sym t)))
          ]
      arms_After (otherwise hash body end) top below w s k h =
          let r = limit - suc (length below) in
          let s1 = step eval limit act (on_else hash) s in
          let s2 = run eval limit act (flatten body) s1 in
          elim (step_else eval limit act source hash top below w s h) [
            | inl (o, l) ↦
                After-append eval limit act source (flatten body) (on_endif end ∷ []) s1 (
                  step_endif eval limit act source end top below _ s2 (
                    Leaves-to (blocks_After body (top ∷ below) w s1 l) (
                      if_false top.branch_active (meant r body w) (skipped r body w) (k o).1
                      ∙ sym (
                          if_not_taken top.parent_active top.taken (meant r body w)
                            (skipped r body w) (k o).0))))
            | inr (o, (u, p, b, t', o', l)) ↦
                After-append eval limit act source (flatten body) (on_endif end ∷ []) s1 (
                  step_endif eval limit act source end u below _ s2 (
                    Leaves-to (blocks_After body (u ∷ below) w s1 l)
                      (ap (λ x. if x then meant r body w else skipped r body w) b)))
          ]

  -- A text that the engine meets to its end, whose conditionals are nested as their directives say,
  -- acts on the world, and on whether the engine is truncated, as it means: in an active frame, each
  -- conditional that is nested within the limit as its first branch whose condition holds in the
  -- world its turn finds, or else as the branch of its `#else`, if it has one. What is not active
  -- does nothing, and a conditional beyond the limit only truncates the engine, wherever it stands.
  -- The stack of open conditionals is left as it was.
  pub run-meaning :
      (bs : Blocks A) (e : Engine W) (f : Frame)
      → ((run eval limit act (flatten bs) (e, f)).1.cond_stack ≡ f.cond_stack)
        × (seen (run eval limit act (flatten bs) (e, f)).0 ≡ (
            if current_active f
            then meaning eval limit act f.source (limit - length f.cond_stack) bs (seen e)
            else skip eval limit act (limit - length f.cond_stack) bs (seen e)))
  run-meaning bs e f =
      let r =
        blocks_After f.source bs f.cond_stack (seen e) (e, f)
          (record { stack_is = refl; source_is = refl; world_is = refl }) in
      (r.stack_is, r.world_is)
