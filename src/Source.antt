-- ===== src/Source.antt =====
-- source.go: the files of a parse, with identifiers in the order they were added.
pub mod Adds
use pawn_parser.Prelude.{
  ℕ, ◌+◌, ◌-◌, ◌%◌, ◌^◌, ◌||◌, List, [], ◌∷◌, ◌++◌, Bytes, Option, none, some, ◌⊎◌, inl, inr, ◌==◌,
  ltb, if◌then◌else◌, length, get_or,
}

pub record SourceFile : Type 0 where
  pub id : ℕ
  pub name : Bytes
  pub data_bytes : Bytes

abbrev pub no_file : SourceFile
no_file = record { id = 0; name = []; data_bytes = [] }

pub record FileSet : Type 0 where
  pub files : List SourceFile
  pub last_id : ℕ

abbrev pub empty_set : FileSet
empty_set = record { files = []; last_id = 0 }

-- `FileSet.Add`; the panic of a full set is `none`.
unfoldable pub add : FileSet → Bytes → Bytes → Option (SourceFile × FileSet)
add s name content =
    if s.last_id == 2 ^ 32 - 1
    then none
    else let id = (s.last_id + 1) % 2 ^ 32 in
      let new : SourceFile = record { id = id; name = name; data_bytes = content } in
      some (new, record { files = s.files ++ (new ∷ []); last_id = id })

-- `FileSet.File`
unfoldable pub file : FileSet → ℕ → Option SourceFile
file s id =
    if id == 0 || ltb (length s.files) id then none else some (get_or s.files (id - 1) no_file)

-- `FileSet.Files`
unfoldable pub files_of : FileSet → List SourceFile
files_of s = s.files

-- `FileSet.Require`; the error names the identifier.
unfoldable pub require : FileSet → ℕ → ℕ ⊎ SourceFile
unfolding file
require s id = found (file s id)
  where
    found : Option SourceFile → ℕ ⊎ SourceFile
    found none = inl id
    found (some f) = inr f
