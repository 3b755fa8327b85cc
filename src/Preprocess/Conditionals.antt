-- ===== src/Preprocess/Conditionals.antt =====
-- preprocess/directives.go: `#if`, `#elseif`, `#else` and `#endif`, with the stack of open conditionals
-- in the frame and the record of branches in the engine. Each handler reads the rest of its line
-- and then does what the `_core` of its name does.
pub mod Structured
pub mod Cores
pub mod Steps
pub mod Refines
use pawn_parser.Prelude.{
  ℕ, Bool, true, false, not, ◌&&◌, List, [], ◌∷◌, ◌++◌, Bytes, Option, none, some, leb, ltb, ◌==◌,
  if◌then◌else◌, length, get_or, set,
}
use pawn_parser.Token.Types.{Token}
use pawn_parser.Preprocess.Frame.{
  ByteRange, Code, unmatched_elseif, unmatched_else, unmatched_endif, conditional_depth_limit,
  unresolvable_condition, Diagnostic, CondFrame, Frame, previous, current_active, span_of, span_or,
  rest_of_line,
}

-- `DirectiveKind`
pub data DirectiveKind : Type 0 where
  directive_if directive_elseif directive_else : DirectiveKind

pub record Branch : Type 0 where
  pub file : ℕ
  pub directive : DirectiveKind
  pub depth : ℕ
  pub directive_span : ByteRange
  pub condition_span : ByteRange
  pub body_span : ByteRange
  pub active : Bool
  pub evaluated : Bool

-- What the handlers use of the engine. `world` is all the rest of it: macros, symbols, declarations
-- and output.
pub record Engine (W : Type 0) : Type 0 where
  pub world : W
  pub branches : List Branch
  pub diags : List Diagnostic
  pub truncated : Bool
  pub depth_limit_warned : Bool

abbrev pub no_range : ByteRange
no_range = record { start = 0; end = 0 }

abbrev blank_branch : Branch
blank_branch = record {
  file = 0;
  directive = directive_if;
  depth = 0;
  directive_span = no_range;
  condition_span = no_range;
  body_span = no_range;
  active = false;
  evaluated = false;
}

-- `evalCondition` in the state of the engine, on the tokens of a condition and their source.
abbrev pub Evaluator : Type 0 → Type 0
Evaluator W = W → Bytes → List Token → Option ℕ

module _ {W : Type 0} (eval : Evaluator W) (max_conditional_depth : ℕ) where
  -- `engine.diag`
  abbrev pub report : Engine W → Frame → Code → ByteRange → Engine W
  report e f code range = record e {
    diags = e.diags ++ (record { file = f.file_index; code = code; range = range } ∷ []);
  }

  abbrev set_open_index : ℕ → List CondFrame → List CondFrame
  set_open_index i [] = []
  set_open_index i (top ∷ rest) = record top { open_branch_index = i } ∷ rest

  abbrev condition_span_of : List Token → ByteRange
  condition_span_of [] = no_range
  condition_span_of (t ∷ ts) = span_or t (t ∷ ts)

  unfoldable pub open_branch :
      Engine W → Frame → DirectiveKind → Token → List Token → Bool → Bool → Engine W × Frame
  unfolding span_or
  open_branch e f kind hash condition active evaluated =
      let end = (previous f).end.offset in
      (
        record e {
          branches =
              e.branches
              ++ (record {
                file = f.file_index;
                directive = kind;
                depth = length f.cond_stack;
                directive_span = record { start = hash.start.offset; end = end };
                condition_span = condition_span_of condition;
                body_span = record { start = end; end = end };
                active = active;
                evaluated = evaluated;
              }
                  ∷ []);
        },
        record f { cond_stack = set_open_index (length e.branches) f.cond_stack },
      )

  abbrev end_body : Branch → ℕ → Branch
  end_body b end = record b { body_span = record { start = b.body_span.start; end = end } }

  -- `closeBranch` for the index of the top frame; an index out of range is left alone.
  unfoldable pub close_branch : Engine W → List CondFrame → Token → Engine W
  close_branch e [] hash = e
  close_branch e (top ∷ rest) hash =
      let i = top.open_branch_index in
      if ltb i (length e.branches)
      then record e {
        branches = set e.branches i (end_body (get_or e.branches i blank_branch) hash.start.offset);
      }
      else e

  abbrev nonzero : ℕ → Bool
  nonzero v = not (v == 0)

  -- `evaluateBranch`: whether the branch is active, and whether its condition was evaluated.
  unfoldable pub evaluate_branch :
      Engine W → Frame → Token → List Token → Bool → (Bool × Bool) × Engine W
  unfolding span_or
  evaluate_branch e f hash rest false = ((false, false), e)
  evaluate_branch e f hash rest true = evaluated (eval e.world f.source rest)
    where
      evaluated : Option ℕ → (Bool × Bool) × Engine W
      evaluated none = ((false, true), report e f unresolvable_condition (span_or hash rest))
      evaluated (some v) = ((nonzero v, true), e)

  abbrev push_frame : CondFrame → Frame → Frame
  push_frame c f = record f { cond_stack = c ∷ f.cond_stack }

  -- A conditional beyond the limit, with one warning in a run.
  unfoldable pub overflow_if : Engine W → Frame → Token → Engine W × Frame
  overflow_if e f hash = (
    record (if e.depth_limit_warned
        then e
        else record (report e f conditional_depth_limit (span_of hash hash)) {
          depth_limit_warned = true;
        }) { truncated = true },
    push_frame
        (record {
          parent_active = current_active f;
          branch_active = false;
          taken = true;
          open_branch_index = 0;
          overflow = true;
        })
        f,
  )

  unfoldable pub within_if : Engine W → Frame → Token → List Token → Engine W × Frame
  unfolding evaluate_branch open_branch
  within_if e f hash rest =
      let ((active, evaluated), e') = evaluate_branch e f hash rest (current_active f) in
      open_branch e'
        (push_frame
          (record {
            parent_active = current_active f;
            branch_active = active;
            taken = active;
            open_branch_index = 0;
            overflow = false;
          })
          f)
        directive_if hash rest active evaluated

  unfoldable pub if_core : Engine W → Frame → Token → List Token → Engine W × Frame
  unfolding overflow_if within_if
  if_core e f hash rest =
      if leb max_conditional_depth (length f.cond_stack)
      then overflow_if e f hash
      else within_if e f hash rest

  -- A later branch, when its conditional is open at the top: the branch before it is closed first.
  unfoldable pub elseif_top :
      Engine W → Frame → CondFrame → List CondFrame → Token → List Token → Engine W × Frame
  unfolding close_branch evaluate_branch open_branch
  elseif_top e f top below hash rest =
      let e' = close_branch e f.cond_stack hash in
      if top.overflow
      then (e', f)
      else if top.taken
      then open_branch e' (record f { cond_stack = record top { branch_active = false } ∷ below })
          directive_elseif hash rest false false
      else let ((active, evaluated), e'') = evaluate_branch e' f hash rest top.parent_active in
        open_branch e''
          (record f { cond_stack = record top { branch_active = active; taken = active } ∷ below })
          directive_elseif hash rest active evaluated

  unfoldable pub elseif_core : Engine W → Frame → Token → List Token → Engine W × Frame
  unfolding elseif_top
  elseif_core e f hash rest = elim f.cond_stack [
    | [] ↦ (report e f unmatched_elseif (span_of hash hash), f)
    | top ∷ below ↦ elseif_top e f top below hash rest
  ]

  unfoldable pub else_top : Engine W → Frame → CondFrame → List CondFrame → Token → Engine W × Frame
  unfolding close_branch open_branch
  else_top e f top below hash =
      let e' = close_branch e f.cond_stack hash in
      let active = top.parent_active && not top.taken in
      if top.overflow
      then (e', f)
      else open_branch e'
          (record f {
            cond_stack =
                record top { branch_active = active; taken = if active then true else top.taken }
                ∷ below;
          })
          directive_else hash [] active top.parent_active

  unfoldable pub else_core : Engine W → Frame → Token → Engine W × Frame
  unfolding else_top
  else_core e f hash = elim f.cond_stack [
    | [] ↦ (report e f unmatched_else (span_of hash hash), f)
    | top ∷ below ↦ else_top e f top below hash
  ]

  unfoldable pub endif_core : Engine W → Frame → Token → Engine W × Frame
  unfolding close_branch
  endif_core e f hash = elim f.cond_stack [
    | [] ↦ (report e f unmatched_endif (span_of hash hash), f)
    | top ∷ below ↦ (
      if top.overflow then e else close_branch e f.cond_stack hash,
      record f { cond_stack = below },
    )
  ]

  -- `handleIf`
  unfoldable pub handle_if : Engine W → Frame → Token → Bool → Engine W × Frame
  unfolding rest_of_line if_core
  handle_if e f hash line_ended = let (rest, g) = rest_of_line line_ended f in if_core e g hash rest

  -- `handleElseif`
  unfoldable pub handle_elseif : Engine W → Frame → Token → Bool → Engine W × Frame
  unfolding rest_of_line elseif_core
  handle_elseif e f hash line_ended =
      let (rest, g) = rest_of_line line_ended f in elseif_core e g hash rest

  -- `handleElse`
  unfoldable pub handle_else : Engine W → Frame → Token → Bool → Engine W × Frame
  unfolding rest_of_line else_core
  handle_else e f hash line_ended = else_core e (rest_of_line line_ended f).1 hash

  -- `handleEndif`
  unfoldable pub handle_endif : Engine W → Frame → Token → Bool → Engine W × Frame
  unfolding rest_of_line endif_core
  handle_endif e f hash line_ended = endif_core e (rest_of_line line_ended f).1 hash
