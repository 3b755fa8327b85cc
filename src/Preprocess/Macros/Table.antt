-- ===== src/Preprocess/Macros/Table.antt =====
-- The table of macros as a map from names, cut to the longest length that counts.
use pawn_parser.Prelude.{
  ◌≡◌, refl, sym, ap, ◌∙◌, List, [], ◌∷◌, Bytes, bytes_eq, bytes_eq_iff, none, some, if◌then◌else◌,
  Bool-cases, inl, inr,
}
use pawn_parser.Preprocess.Macros.{
  Macro, MacroTable, find, remove, table_name, define, undef, lookup_macro,
}

find-remove :
    {A : Type 0} (key name : Bytes) (entries : List (Bytes × A))
    → find name (remove key entries) ≡ (if bytes_eq key name then none else find name entries)
unfolding find remove
find-remove key name [] = elim (Bool-cases (bytes_eq key name)) [
  | inl e ↦ rw e refl
  | inr e ↦ rw e refl
]
find-remove key name ((k, v) ∷ rest) = elim (Bool-cases (bytes_eq k key)) [
  | inl e ↦ elim (Bool-cases (bytes_eq key name)) [
    | inl f ↦ rw (e, find-remove key name rest, f) refl
    | inr f ↦
        rw (e, find-remove key name rest, ap (λ x. bytes_eq x name) ((bytes_eq_iff k key).0 e), f)
          refl
  ]
  | inr e ↦ elim (Bool-cases (bytes_eq k name)) [
    | inl f ↦ elim (Bool-cases (bytes_eq key name)) [
      | inl g ↦ absurd (
          cc (
            e,
            (bytes_eq_iff k key).1 ((bytes_eq_iff k name).0 f ∙ sym ((bytes_eq_iff key name).0 g)),
          ))
      | inr g ↦ rw (e, f, g) refl
    ]
    | inr f ↦ rw (e, f, find-remove key name rest) refl
  ]
]

-- After `define` a name finds the macro, under its cut name, if both names are cut to the same, and
-- else what it found before; `define` reports what the macro's name found before.
pub lookup-define :
    (t : MacroTable) (m : Macro) (name : Bytes)
    → ((define t m).0 ≡ lookup_macro t m.name)
      × (lookup_macro (define t m).1 name ≡ (
          if bytes_eq (table_name t m.name) (table_name t name)
          then some (record m { name = table_name t m.name })
          else lookup_macro t name))
unfolding define lookup_macro find
lookup-define t m name = (refl, refl)

-- After `undef` a name finds nothing if it is cut to the same as the name that was removed, and else
-- what it found before.
pub lookup-undef :
    (t : MacroTable) (gone name : Bytes)
    → lookup_macro (undef t gone).1 name
      ≡ (if bytes_eq (table_name t gone) (table_name t name) then none else lookup_macro t name)
unfolding undef lookup_macro
lookup-undef t gone name = find-remove (table_name t gone) (table_name t name) t.by_name

-- A macro that is defined and then undefined, under any name that is cut to the same, is not found
-- again under any such name, and every other name finds what it found before both.
pub undef-define :
    (t : MacroTable) (m : Macro) (gone name : Bytes)
    → table_name t gone ≡ table_name t m.name
    → lookup_macro (undef (define t m).1 gone).1 name
      ≡ (if bytes_eq (table_name t m.name) (table_name t name) then none else lookup_macro t name)
unfolding define
undef-define t m gone name e =
    lookup-undef (define t m).1 gone name
    ∙ elim (Bool-cases (bytes_eq (table_name t m.name) (table_name t name))) [
      | inl f ↦ rw (e, f) refl
      | inr f ↦ rw (e, (lookup-define t m name).1, f) refl
    ]
