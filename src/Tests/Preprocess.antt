-- ===== src/Tests/Preprocess.antt =====
-- Conditions, the table of macros and sets of files at concrete inputs.
use pawn_parser.Prelude.{
  zero, suc, ◌+◌, ◌-◌, ◌^◌, ◌≤◌, ◌<◌, length, get_or, bytes_eq, inl, inr, Option, Bool-cases, ℕ,
  ◌⊎◌, List, [], ◌∷◌, ◌≡◌, refl, codes, Bytes, true, false, none, some, if◌then◌else◌, arith,
}
use pawn_parser.Token.Kind.{Kind}
use pawn_parser.Source.{SourceFile, FileSet, no_file, add, require}
use pawn_parser.Source.Adds.{IsFileSet, Adds, add-Adds, require_lem}
use pawn_parser.Preprocess.Macros.{
  Ptok, Macro, MacroKind, MacroTable, define, undef, lookup_macro, table_name, find,
}
use pawn_parser.Preprocess.Macros.Table.{lookup-define, undef-define}
use pawn_parser.Preprocess.Eval.{token_at, Env, guarded}
use pawn_parser.Preprocess.IfExpr.{body_of, eval_condition}
use pawn_parser.Preprocess.IfExpr.Depth.{eval_condition_ends}
use pawn_parser.Tests.{sample, no_pools}

-- A table with `MAX` for 2 + SIZE and `SIZE` for MAX, which stand for each other.
abbrev word : Kind → Bytes → Ptok
word kind text = record { kind = kind; text = text }

abbrev max_macro : Macro
max_macro = record {
  name = codes "MAX";
  kind = MacroKind.object_like;
  body =
      word Kind.int_literal (codes "2")
      ∷ word Kind.plus (codes "+")
      ∷ word Kind.identifier (codes "SIZE")
      ∷ [];
}

abbrev size_macro : Macro
size_macro = record {
  name = codes "SIZE";
  kind = MacroKind.object_like;
  body = word Kind.identifier (codes "MAX") ∷ [];
}

abbrev macros : MacroTable
macros = record {
  by_name = (codes "MAX", max_macro) ∷ (codes "SIZE", size_macro) ∷ [];
  max_name_length = 5;
}

abbrev env : Env
env = record {
  macros = record macros { max_name_length = 0 };
  symbols = [];
  declarations = record { size_of = λ _ _. none; defined = λ _. false; constant = λ _. none };
  pools = no_pools;
}

abbrev names : List Bytes
names = codes "MAX" ∷ codes "SIZE" ∷ []

-- `MAX * 3 == 6 && !defined(MIN)`
abbrev condition : List Ptok
condition =
    word Kind.identifier (codes "MAX")
    ∷ word Kind.star (codes "*")
    ∷ word Kind.int_literal (codes "0x3")
    ∷ word Kind.eq (codes "==")
    ∷ word Kind.int_literal (codes "6")
    ∷ word Kind.and_and (codes "&&")
    ∷ word Kind.bang (codes "!")
    ∷ word Kind.kw_defined (codes "defined")
    ∷ word Kind.lparen (codes "(")
    ∷ word Kind.identifier (codes "MIN")
    ∷ word Kind.rparen (codes ")")
    ∷ []

condition_value : eval_condition 3 env condition ≡ some (some 1)
unfolding eval_condition token_at
condition_value = refl

-- `-7 / 2 == -3` and `1 / 0`
division_value :
    eval_condition 1 env (
      word Kind.minus []
      ∷ word Kind.int_literal (codes "7")
      ∷ word Kind.slash []
      ∷ word Kind.int_literal (codes "2")
      ∷ word Kind.eq []
      ∷ word Kind.minus []
      ∷ word Kind.int_literal (codes "3")
      ∷ [])
    ≡ some (some 1)
unfolding eval_condition token_at
division_value = refl

zero_division_unknown :
    eval_condition 1 env (
      word Kind.int_literal (codes "1")
      ∷ word Kind.slash []
      ∷ word Kind.int_literal (codes "0")
      ∷ [])
    ≡ some none
unfolding eval_condition token_at
zero_division_unknown = refl

-- `-16 >> 2 == -4`, `1 << 64 == 0` and `'\n' == 10`
shift_values :
    (eval_condition 1 env (
        word Kind.minus []
        ∷ word Kind.int_literal (codes "16")
        ∷ word Kind.shr []
        ∷ word Kind.int_literal (codes "2")
        ∷ word Kind.eq []
        ∷ word Kind.minus []
        ∷ word Kind.int_literal (codes "4")
        ∷ [])
      ≡ some (some 1))
    × (eval_condition 1 env (
          word Kind.int_literal (codes "1")
          ∷ word Kind.shl []
          ∷ word Kind.int_literal (codes "64")
          ∷ [])
        ≡ some (some 0))
    × (eval_condition 1 env (word Kind.char_literal (b'\'' ∷ b'\\' ∷ b'n' ∷ b'\'' ∷ []) ∷ [])
        ≡ some (some 10))
unfolding eval_condition token_at
shift_values = (refl, refl, refl)

names_complete :
    (name : Bytes) (body : List Ptok) → body_of env name ≡ some body → guarded names name ≡ true
unfolding body_of guarded lookup_macro find
names_complete name body h = elim (Bool-cases (bytes_eq (codes "MAX") name)) [
  | inl e ↦ rw e refl
  | inr e ↦ elim (Bool-cases (bytes_eq (codes "SIZE") name)) [
    | inl f ↦ rw (e, f) refl
    | inr f ↦ absurd (cc (rw (e, f, find, lookup_macro) at h))
  ]
]

eval_condition_ends_example : (v : Option ℕ) × (eval_condition 3 env condition ≡ some v)
eval_condition_ends_example = eval_condition_ends env names names_complete 3 condition (omega arith)

lookup-define_example :
    ((define macros size_macro).0 ≡ lookup_macro macros (codes "SIZE"))
    × (lookup_macro (define macros size_macro).1 (codes "MAX") ≡ (
        if bytes_eq (table_name macros (codes "SIZE")) (table_name macros (codes "MAX"))
        then some (record size_macro { name = table_name macros (codes "SIZE") })
        else lookup_macro macros (codes "MAX")))
lookup-define_example = lookup-define macros size_macro (codes "MAX")

abbrev long_macro : Macro
long_macro = record { name = codes "LENGTHS"; kind = MacroKind.object_like; body = [] }

undef-define_example :
    lookup_macro (undef (define macros long_macro).1 (codes "LENGTHY")).1 (codes "LENGT") ≡ (
      if bytes_eq (table_name macros (codes "LENGTHS")) (table_name macros (codes "LENGT"))
      then none
      else lookup_macro macros (codes "LENGT"))
undef-define_example = undef-define macros long_macro (codes "LENGTHY") (codes "LENGT") refl

abbrev one_file : FileSet
one_file = record {
  files = record { id = 1; name = codes "a.pwn"; data_bytes = [] } ∷ [];
  last_id = 1;
}

one_file-IsFileSet : IsFileSet one_file
one_file-IsFileSet = record { counted = refl; fits = omega arith; numbered = only }
  where
    only : (i : ℕ) → i < 1 → (get_or one_file.files i no_file).id ≡ i + 1
    only zero h = refl
    only (suc i) h = absurd (omega arith)

add-Adds_example :
    ((one_file.last_id ≡ 2 ^ 32 - 1) × (add one_file (codes "b.inc") sample ≡ none))
    ⊎ ((f : SourceFile) × (t : FileSet) × (add one_file (codes "b.inc") sample ≡ some (f, t))
        × Adds one_file (codes "b.inc") sample f t)
add-Adds_example = add-Adds one_file (codes "b.inc") sample one_file-IsFileSet

abbrev one : ℕ
one = 1

require_lem_example :
    ((f : SourceFile) × (require one_file one ≡ inr f)
      × (f.id ≡ one)
      × (one ≤ length one_file.files))
    ⊎ ((require one_file one ≡ inl one) × ((one ≡ 0) ⊎ (length one_file.files < one)))
require_lem_example = require_lem one_file one one_file-IsFileSet
