-- ===== src/Preprocess/Macros.antt =====
-- preprocess/macro.go: the table of macros; preprocess/ptok.go: a token with its text;
-- preprocess/directives.go: `tokenizeBody`.
pub mod Table
use pawn_parser.Prelude.{
  ℕ, Bool, true, false, ◌&&◌, List, [], ◌∷◌, Bytes, bytes_eq, Option, none, some, ltb,
  if◌then◌else◌, length, take, map,
}
use pawn_parser.Token.Kind.{Kind, kind_eq}
use pawn_parser.Token.Types.{Token, token_text}
use pawn_parser.Lexer.Attach.{BlockPools, Outcome, done, cancelled, panicked, out_of_fuel, tokenize}

-- The fields of `ptok` that a condition reads.
pub record Ptok : Type 0 where
  pub kind : Kind
  pub text : Bytes

pub data MacroKind : Type 0 where
  object_like function_like : MacroKind

-- The fields of `Macro` that the table and a condition read.
pub record Macro : Type 0 where
  pub name : Bytes
  pub kind : MacroKind
  pub body : List Ptok

pub record MacroTable : Type 0 where
  pub by_name : List (Bytes × Macro)
  pub max_name_length : ℕ

-- A map as a list of pairs, the newest of which counts.
unfoldable pub find : {A : Type 0} → Bytes → List (Bytes × A) → Option A
unfolding bytes_eq
find name [] = none
find name ((key, value) ∷ rest) =
    let later = find name rest in if bytes_eq key name then some value else later

unfoldable pub remove : {A : Type 0} → Bytes → List (Bytes × A) → List (Bytes × A)
unfolding bytes_eq
remove name [] = []
remove name ((key, value) ∷ rest) =
    let later = remove name rest in if bytes_eq key name then later else (key, value) ∷ later

abbrev pub is_some : {A : Type 0} → Option A → Bool
is_some none = false
is_some (some x) = true

-- `macroTable.name`
abbrev pub table_name : MacroTable → Bytes → Bytes
table_name t name =
    if ltb 0 t.max_name_length && ltb t.max_name_length (length name)
    then take t.max_name_length name
    else name

-- `macroTable.define`, with the macro that had the name before
unfoldable pub define : MacroTable → Macro → Option Macro × MacroTable
unfolding find
define t m =
    let name = table_name t m.name in
    (find name t.by_name, record t { by_name = (name, record m { name = name }) ∷ t.by_name })

-- `macroTable.undef`
unfoldable pub undef : MacroTable → Bytes → Bool × MacroTable
unfolding find remove
undef t name = (
  is_some (find (table_name t name) t.by_name),
  record t { by_name = remove (table_name t name) t.by_name },
)

-- `macroTable.lookup`
unfoldable pub lookup_macro : MacroTable → Bytes → Option Macro
unfolding find
lookup_macro t name = find (table_name t name) t.by_name

-- `macroTable.defined`
unfoldable pub is_defined : MacroTable → Bytes → Bool
unfolding lookup_macro
is_defined t name = is_some (lookup_macro t name)

-- `toPtok`, for the fields above
unfoldable pub to_ptok : Bytes → Token → Ptok
unfolding token_text
to_ptok source t = record { kind = t.kind; text = token_text t source }

-- All but a last token of kind EOF.
unfoldable without_eof : List Token → List Token
unfolding kind_eq
without_eof [] = []
without_eof (t ∷ []) = if kind_eq t.kind Kind.eof then [] else t ∷ []
without_eof (t ∷ ts) = t ∷ without_eof ts

unfoldable body_tokens : Bytes → Outcome (List Token) → List Ptok
unfolding without_eof to_ptok
body_tokens text (done ts) = map (to_ptok text) (without_eof ts)
body_tokens text cancelled = []
body_tokens text panicked = []
body_tokens text out_of_fuel = []

-- `tokenizeBody`; `Tokenize` always ends with tokens.
unfoldable pub tokenize_body : BlockPools → Bytes → List Ptok
unfolding tokenize body_tokens
tokenize_body pools text = body_tokens text (tokenize pools text)
