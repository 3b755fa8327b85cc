-- ===== src/Source/Adds.antt =====
-- Adding to a set of files.
use pawn_parser.Prelude.{
  ℕ, ◌+◌, ◌-◌, ◌%◌, ◌^◌, ◌<◌, ◌≤◌, ◌≡◌, ◌≢◌, refl, sym, ap, ◌∙◌, [], ◌∷◌, ◌++◌, Bytes, Option, none,
  some, ◌⊎◌, inl, inr, arith, ◌==◌, if_cases, length, get_or, length-append, get_or-append_left,
  get_or-append_right,
}
use pawn_parser.Source.{SourceFile, no_file, FileSet, add, file, files_of, require}

-- The identifiers count the files from 1.
pub record IsFileSet (s : FileSet) : Type 0 where
  pub counted : s.last_id ≡ length s.files
  pub fits : s.last_id < 2 ^ 32
  pub numbered : (i : ℕ) → i < length s.files → (get_or s.files i no_file).id ≡ i + 1

-- A file has been added to `s`.
pub record Adds (s : FileSet) (name content : Bytes) (f : SourceFile) (t : FileSet) : Type 0 where
  pub new_is : f ≡ record { id = s.last_id + 1; name = name; data_bytes = content }
  pub still : IsFileSet t
  pub found : file t f.id ≡ some f
  pub others : (id : ℕ) → id ≢ f.id → file t id ≡ file s id
  pub listed : files_of t ≡ files_of s ++ (f ∷ [])

file-inside :
    (s : FileSet) (id : ℕ)
    → 0 < id
    → id ≤ length s.files
    → file s id ≡ some (get_or s.files (id - 1) no_file)
unfolding file
file-inside s id p h = ground arith

file-outside : (s : FileSet) (id : ℕ) → (id ≡ 0) ⊎ (length s.files < id) → file s id ≡ none
unfolding file
file-outside s id h = ground arith

module _ (s : FileSet) (w : IsFileSet s) (new : SourceFile) (k : new.id ≡ s.last_id + 1) where
  abbrev after : FileSet
  after = record { files = s.files ++ (new ∷ []); last_id = new.id }

  length-after : length after.files ≡ length s.files + 1
  length-after = length-append s.files (new ∷ [])

  new_at : get_or after.files (length s.files) no_file ≡ new
  new_at =
      get_or-append_right s.files (new ∷ []) (length s.files) no_file (omega arith)
      ∙ ap (λ n. get_or (new ∷ []) n no_file)
          (let e : length s.files - length s.files ≡ 0 = omega arith in e)

  after-numbered : (i : ℕ) → i < length after.files → (get_or after.files i no_file).id ≡ i + 1
  after-numbered i h = elim (old_or_new i h) [
    | inl l ↦
        ap (λ (f : SourceFile). f.id) (get_or-append_left s.files (new ∷ []) i no_file l)
        ∙ w.numbered i l
    | inr e ↦
        ap (λ n. (get_or after.files n no_file).id) e
        ∙ ap (λ (f : SourceFile). f.id) new_at
        ∙ omega (arith, k, w.counted)
  ]
    where
      old_or_new : (i : ℕ) → i < length after.files → (i < length s.files) ⊎ (i ≡ length s.files)
      old_or_new i h = omega (arith, h, length-after)

  after-others : (id : ℕ) → id ≢ new.id → file after id ≡ file s id
  after-others id n = elim (where_is id) [
    | inl (p, l) ↦
        file-inside after id p (omega (arith, length-after))
        ∙ ap some (get_or-append_left s.files (new ∷ []) (id - 1) no_file (omega arith))
        ∙ sym (file-inside s id p l)
    | inr (inl e) ↦ file-outside after id (inl e) ∙ sym (file-outside s id (inl e))
    | inr (inr l) ↦ file-outside after id (inr (past id n l)) ∙ sym (file-outside s id (inr l))
  ]
    where
      where_is : (id : ℕ) → ((0 < id) × (id ≤ length s.files)) ⊎ ((id ≡ 0) ⊎ (length s.files < id))
      where_is id = ground arith

      past : (id : ℕ) → id ≢ new.id → length s.files < id → length after.files < id
      past id n l = ground (arith, length-after, k, w.counted)

  after-Adds :
      s.last_id + 1 < 2 ^ 32
      → (name content : Bytes)
      → new ≡ record { id = s.last_id + 1; name = name; data_bytes = content }
      → Adds s name content new after
  unfolding files_of
  after-Adds h name content e = record {
    new_is = e;
    still = record {
      counted = omega (arith, k, w.counted, length-after);
      fits = omega (arith, k);
      numbered = after-numbered;
    };
    found =
        file-inside after new.id (omega (arith, k)) (omega (arith, k, w.counted, length-after))
        ∙ ap (λ n. some (get_or after.files n no_file))
            (let e : new.id - 1 ≡ length s.files = omega (arith, k, w.counted) in e)
        ∙ ap some new_at;
    others = after-others;
    listed = refl;
  }

-- In a set whose identifiers count its files from 1, an addition panics exactly when the last
-- identifier is the largest of 32 bits; else the new file has the next identifier and is found
-- under it, each other identifier finds what it found before, the file is listed last, and the
-- identifiers again count the files.
pub add-Adds :
    (s : FileSet) (name content : Bytes)
    → IsFileSet s
    → ((s.last_id ≡ 2 ^ 32 - 1) × (add s name content ≡ none))
      ⊎ ((f : SourceFile) × (t : FileSet) × (add s name content ≡ some (f, t))
          × Adds s name content f t)
unfolding add
add-Adds s name content w =
    if_cases
      (λ (o : Option (SourceFile × FileSet)).
        ((s.last_id ≡ 2 ^ 32 - 1) × (o ≡ none))
        ⊎ ((f : SourceFile) × (t : FileSet) × (o ≡ some (f, t)) × Adds s name content f t))
      (s.last_id == 2 ^ 32 - 1) _ _ (λ e. inl (ground arith, refl))
      (λ e.
        let l : s.last_id + 1 < 2 ^ 32 = ground (arith, w.fits) in
        let m : (s.last_id + 1) % 2 ^ 32 ≡ s.last_id + 1 = omega arith in
        inr (
          _,
          _,
          refl,
          after-Adds s w _ m l name content
              (ap (λ n. record { id = n; name = name; data_bytes = content }) m),
        ))

-- In such a set `Require` finds a file with the identifier that was asked for when there is one, and
-- reports the identifier when it is 0 or more than the number of files.
pub require_lem :
    (s : FileSet) (id : ℕ)
    → IsFileSet s
    → ((f : SourceFile) × (require s id ≡ inr f) × (f.id ≡ id) × (id ≤ length s.files))
      ⊎ ((require s id ≡ inl id) × ((id ≡ 0) ⊎ (length s.files < id)))
unfolding require
require_lem s id w = elim (where_is id) [
  | inl (p, l) ↦ inl (
    get_or s.files (id - 1) no_file,
    rw (file-inside s id p l) refl,
    w.numbered (id - 1) (omega arith) ∙ omega arith,
    l,
  )
  | inr o ↦ inr (rw (file-outside s id o) refl, o)
]
  where
    where_is : (id : ℕ) → ((0 < id) × (id ≤ length s.files)) ⊎ ((id ≡ 0) ⊎ (length s.files < id))
    where_is id = ground arith
