-- ===== src/Preprocess/Conditionals/Steps.antt =====
-- The steps of the directives on what was left before them, and how their effects combine.
use pawn_parser.Prelude.{
  ℕ, suc, ◌-◌, ◌≤◌, ◌<◌, ◌≡◌, refl, sym, ap, ◌∙◌, subst, Bool, true, false, not, ◌&&◌, List, [],
  ◌∷◌, ◌++◌, Bytes, ◌⊎◌, arith, if◌then◌else◌, length,
}
use pawn_parser.Token.Types.{Token}
use pawn_parser.Preprocess.Frame.{CondFrame, Frame, top_active, current_active}
use pawn_parser.Preprocess.Conditionals.{Engine, Evaluator}
use pawn_parser.Preprocess.Conditionals.Structured.{
  Seen, seen, skip, skip_arms, Site, Event, on_if, on_elseif, on_else, on_endif, Blocks, Arms, step,
  run, holds, meaning, meaning_arms,
}
use pawn_parser.Preprocess.Conditionals.Cores.{
  Leaves, Opens, if_core-within, if_core-beyond, elseif_core-next, else_core-next,
  endif_core-closes,
}

pub Leaves-moved :
    {W : Type 0} {stack : List CondFrame} {source : Bytes} {world : Seen W} {s : Engine W × Frame}
    (P : List CondFrame → Bytes → Seen W → Type 0)
    → Leaves stack source world s
    → P s.1.cond_stack s.1.source (seen s.0)
    → P stack source world
Leaves-moved {stack} {source} {world} {s} P h p =
    subst (λ x. P stack source x) h.world_is
      (subst (λ x. P stack x (seen s.0)) h.source_is
        (subst (λ x. P x s.1.source (seen s.0)) h.stack_is p))

pub Leaves-to :
    {W : Type 0} {stack : List CondFrame} {source : Bytes} {w v : Seen W} {s : Engine W × Frame}
    → Leaves stack source w s
    → w ≡ v
    → Leaves stack source v s
Leaves-to h e = record { stack_is = h.stack_is; source_is = h.source_is; world_is = h.world_is ∙ e }

-- How the parts of a conditional combine, with its parent active or not.
pub combine :
    {V : Type 0} (a h : Bool) (v : V) (body no_body arms no_arms next no_next : V → V)
    → (let v1 = if a && h then body v else no_body v in
        let v2 = if a && not (a && h) then arms v1 else no_arms v1 in
        if a then next v2 else no_next v2)
      ≡ (if a
          then next (elim h [ true ↦ no_arms (body v) | false ↦ arms (no_body v) ])
          else no_next (no_arms (no_body v)))
combine true true v body no_body arms no_arms next no_next = refl
combine true false v body no_body arms no_arms next no_next = refl
combine false h v body no_body arms no_arms next no_next = refl

pub combine_next :
    {V : Type 0} (a h : Bool) (v : V) (body no_body arms no_arms : V → V)
    → (let v1 = if a && h then body v else no_body v in
        if a && not (a && h) then arms v1 else no_arms v1)
      ≡ (if a && true
          then elim h [ true ↦ no_arms (body v) | false ↦ arms (no_body v) ]
          else no_arms (no_body v))
combine_next true true v body no_body arms no_arms = refl
combine_next true false v body no_body arms no_arms = refl
combine_next false h v body no_body arms no_arms = refl

pub combine_text :
    {V : Type 0} (a : Bool) (w v : V) (next no_next : V → V)
    → (if a then next (if a then v else w) else no_next (if a then v else w))
      ≡ (if a then next v else no_next w)
combine_text true w v next no_next = refl
combine_text false w v next no_next = refl

pub if_seen :
    {W : Type 0} (b : Bool) (e : Engine W) (v : Seen W)
    → seen (if b then record e { truncated = v.0; world = v.1 } else e) ≡ (if b then v else seen e)
if_seen true e v = refl
if_seen false e v = refl

pub if_same : {W : Type 0} (a : Bool) (w : W) → (if a then w else w) ≡ w
if_same true w = refl
if_same false w = refl

pub if_false : {W : Type 0} (b : Bool) (v w : W) → b ≡ false → (if b then v else w) ≡ w
if_false true v w e = cc
if_false false v w e = refl

pub if_not_taken :
    {W : Type 0} (p t : Bool) (v w : W) → t ≡ true → (if p && not t then v else w) ≡ w
if_not_taken true true v w e = refl
if_not_taken true false v w e = cc
if_not_taken false t v w e = refl

module _ {A W : Type 0} (eval : Evaluator W) (limit : ℕ) (act : A → Seen W → Seen W) where
  pub run-append :
      (xs ys : List (Event A)) (s : Engine W × Frame)
      → run eval limit act (xs ++ ys) s ≡ run eval limit act ys (run eval limit act xs s)
  unfolding run
  run-append [] ys s = refl
  run-append (x ∷ xs) ys s = run-append xs ys (step eval limit act x s)

  -- The world behind a text, under a stack.
  abbrev pub world_after : List CondFrame → Bytes → Blocks A → Seen W → Seen W
  world_after stack source bs w =
      if top_active stack
      then meaning eval limit act source (limit - length stack) bs w
      else skip eval limit act (limit - length stack) bs w

  abbrev pub world_after_arms : CondFrame → List CondFrame → Bytes → Arms A → Seen W → Seen W
  world_after_arms top below source arms w =
      if top.parent_active && not top.taken
      then meaning_arms eval limit act source (limit - suc (length below)) arms w
      else skip_arms eval limit act (limit - suc (length below)) arms w

  module _ (source : Bytes) where
    pub step_text :
        (a : A) (stack : List CondFrame) (w : Seen W) (s : Engine W × Frame)
        → Leaves stack source w s
        → Leaves stack source
            (if top_active stack then act a w else w)
            (step eval limit act (Event.text a) s)
    unfolding step
    step_text a stack w s h = record {
      stack_is = h.stack_is;
      source_is = h.source_is;
      world_is =
          if_seen (current_active s.1) s.0 (act a (seen s.0))
          ∙ ap (λ b. if top_active b then act a (seen s.0) else seen s.0) h.stack_is
          ∙ ap (λ v. if top_active stack then act a v else v) h.world_is;
    }

    -- What a run of a whole text, or of the rest of a conditional, leaves.
    abbrev pub After : List CondFrame → Seen W → List (Event A) → Engine W × Frame → Type 0
    After stack w events s = Leaves stack source w (run eval limit act events s)

    pub After-append :
        (xs ys : List (Event A)) {stack : List CondFrame} {w : Seen W} (s : Engine W × Frame)
        → After stack w ys (run eval limit act xs s)
        → After stack w (xs ++ ys) s
    After-append xs ys {stack} {w} s h =
        subst (λ r. Leaves stack source w r) (sym (run-append xs ys s)) h

    -- The steps of the directives, from what was left before them.
    pub step_if :
        (site : Site) (stack : List CondFrame) (w : Seen W) (s : Engine W × Frame)
        → Leaves stack source w s
        → length stack < limit
        → Opens eval limit
            (top_active stack)
            (top_active stack && holds eval source w.1 site)
            (top_active stack && holds eval source w.1 site)
            stack
            source
            w
            (step eval limit act (on_if site) s)
    unfolding step
    step_if site stack w s h l =
        Leaves-moved
          (λ st src v.
            Opens eval limit (top_active st) (top_active st && holds eval src v.1 site)
              (top_active st && holds eval src v.1 site) st src v
              (step eval limit act (on_if site) s))
          h (if_core-within eval limit s.0 s.1 site (omega (arith, ap length h.stack_is)))

    pub step_if_beyond :
        (site : Site) (stack : List CondFrame) (w : Seen W) (s : Engine W × Frame)
        → Leaves stack source w s
        → limit ≤ length stack
        → (top : CondFrame) × (top.overflow ≡ true)
          × (top.taken ≡ true)
          × (top.branch_active ≡ false)
          × Leaves (top ∷ stack) source (true, w.1) (step eval limit act (on_if site) s)
    unfolding step
    step_if_beyond site stack w s h l =
        Leaves-moved
          (λ st src v.
            (top : CondFrame) × (top.overflow ≡ true)
            × (top.taken ≡ true)
            × (top.branch_active ≡ false)
            × Leaves (top ∷ st) src (true, v.1) (step eval limit act (on_if site) s))
          h (if_core-beyond eval limit s.0 s.1 site (omega (arith, ap length h.stack_is)))

    pub step_endif :
        (hash : Token) (top : CondFrame) (below : List CondFrame) (w : Seen W)
        (s : Engine W × Frame)
        → Leaves (top ∷ below) source w s
        → Leaves below source w (step eval limit act (on_endif hash) s)
    unfolding step
    step_endif hash top below w s h =
        let r = endif_core-closes eval limit s.0 s.1 top below hash h.stack_is in
        record {
          stack_is = r.stack_is;
          source_is = r.source_is ∙ h.source_is;
          world_is = r.world_is ∙ h.world_is;
        }

    pub step_elseif :
        (site : Site) (top : CondFrame) (below : List CondFrame) (w : Seen W) (s : Engine W × Frame)
        → Leaves (top ∷ below) source w s
        → ((top.overflow ≡ true)
            × Leaves (top ∷ below) source w (step eval limit act (on_elseif site) s))
          ⊎ ((top.overflow ≡ false)
              × (top.taken ≡ true)
              × Opens eval limit top.parent_active false true below source w
                  (step eval limit act (on_elseif site) s))
          ⊎ ((top.overflow ≡ false)
              × (top.taken ≡ false)
              × Opens eval limit top.parent_active
                  (top.parent_active && holds eval source w.1 site)
                  (top.parent_active && holds eval source w.1 site)
                  below
                  source
                  w
                  (step eval limit act (on_elseif site) s))
    unfolding step
    step_elseif site top below w s h =
        Leaves-moved
          (λ _ src v.
            ((top.overflow ≡ true)
              × Leaves (top ∷ below) src v (step eval limit act (on_elseif site) s))
            ⊎ ((top.overflow ≡ false)
                × (top.taken ≡ true)
                × Opens eval limit top.parent_active false true below src v
                    (step eval limit act (on_elseif site) s))
            ⊎ ((top.overflow ≡ false)
                × (top.taken ≡ false)
                × Opens eval limit top.parent_active (top.parent_active && holds eval src v.1 site)
                    (top.parent_active && holds eval src v.1 site) below src v
                    (step eval limit act (on_elseif site) s)))
          h (elseif_core-next eval limit s.0 s.1 top below site h.stack_is)

    pub step_else :
        (hash : Token) (top : CondFrame) (below : List CondFrame) (w : Seen W)
        (s : Engine W × Frame)
        → Leaves (top ∷ below) source w s
        → ((top.overflow ≡ true)
            × Leaves (top ∷ below) source w (step eval limit act (on_else hash) s))
          ⊎ ((top.overflow ≡ false)
              × Opens eval limit top.parent_active
                  (top.parent_active && not top.taken)
                  (if top.parent_active && not top.taken then true else top.taken)
                  below
                  source
                  w
                  (step eval limit act (on_else hash) s))
    unfolding step
    step_else hash top below w s h =
        Leaves-moved
          (λ _ src v.
            ((top.overflow ≡ true)
              × Leaves (top ∷ below) src v (step eval limit act (on_else hash) s))
            ⊎ ((top.overflow ≡ false)
                × Opens eval limit top.parent_active (top.parent_active && not top.taken)
                    (if top.parent_active && not top.taken then true else top.taken) below src v
                    (step eval limit act (on_else hash) s)))
          h (else_core-next eval limit s.0 s.1 top below hash h.stack_is)
