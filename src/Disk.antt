-- ===== src/Disk.antt =====
-- firmware/main/storage/storage.cpp, and the C library's calls on files that firmware/main/repositories makes.
-- The files are the C library's: an unknown type with the calls as fields, and the laws that the code
-- relies on.
pub mod Paths
pub mod Memory
use rotation_target.Common.{
  ℕ, ◌≡◌, ◌≢◌, Bool, true, false, not, Option, none, some, List, [], ◌∷◌, ◌++◌, length, ltb, ◌==◌,
  is_empty, if◌then◌else◌,
}
use rotation_target.Common.Text.{Text}

-- `content` is what fopen "rb" and fread give, `names` what readdir lists (nothing where opendir fails),
-- `create` is fopen "wb", fwrite and fclose with the number of bytes that fwrite took and whether fclose
-- succeeded, and the other flags are
-- whether the call succeeded (mkdir also where the directory is there).
pub record Disk : Type 1 where
  pub Files : Type 0
  pub content : Files → Text → Option Text
  pub names : Files → Text → List Text
  pub create : Files → Text → Text → Option (Files × ℕ × Bool)
  pub rename : Files → Text → Text → Files × Bool
  pub unlink : Files → Text → Files × Bool
  pub mkdir : Files → Text → Files × Bool

-- What a call does to the contents, and that it leaves those of other paths.
pub record IsDisk (D : Disk) : Type 0 where
  pub create-whole :
      (fs fs' : D.Files) (p t : Text)
      → D.create fs p t ≡ some (fs', length t, true)
      → D.content fs' p ≡ some t
  pub create-other :
      (fs fs' : D.Files) (p t q : Text) (n : ℕ) (closed : Bool)
      → D.create fs p t ≡ some (fs', n, closed)
      → q ≢ p
      → D.content fs' q ≡ D.content fs q
  pub rename-moved :
      (fs : D.Files) (p q : Text)
      → (D.rename fs p q).1 ≡ true
      → D.content (D.rename fs p q).0 q ≡ D.content fs p
  pub rename-other :
      (fs : D.Files) (p q r : Text)
      → r ≢ p
      → r ≢ q
      → D.content (D.rename fs p q).0 r ≡ D.content fs r
  -- As POSIX has it, and LittleFS: a rename that fails changes nothing.
  pub rename-failed :
      (fs : D.Files) (p q r : Text)
      → (D.rename fs p q).1 ≡ false
      → D.content (D.rename fs p q).0 r ≡ D.content fs r
  pub unlink-gone :
      (fs : D.Files) (p : Text) → (D.unlink fs p).1 ≡ true → D.content (D.unlink fs p).0 p ≡ none
  pub unlink-other :
      (fs : D.Files) (p q : Text) → q ≢ p → D.content (D.unlink fs p).0 q ≡ D.content fs q
  pub unlink-failed :
      (fs : D.Files) (p q : Text)
      → (D.unlink fs p).1 ≡ false
      → D.content (D.unlink fs p).0 q ≡ D.content fs q
  pub mkdir-content : (fs : D.Files) (d q : Text) → D.content (D.mkdir fs d).0 q ≡ D.content fs q

-- No fclose fails: fwrite only fills a buffer, and the code does not look at what fclose answers.
abbrev pub AllClose : Disk → Type 0
AllClose D =
    (fs fs' : D.Files) (p t : Text) (n : ℕ) (closed : Bool)
    → D.create fs p t ≡ some (fs', n, closed)
    → closed ≡ true

-- The path with one more component.
abbrev pub joined : Text → Text → Text
joined current part = (if ltb 1 (length current) then current ++ b'/' ∷ [] else current) ++ part

module _ (D : Disk) where
  -- The loop of make_dirs, with the component that is being read.
  unfoldable pub make_from : D.Files → Text → Text → Text → D.Files × Bool
  make_from fs current part [] =
      if is_empty part then (fs, true) else D.mkdir fs (joined current part)
  make_from fs current part (c ∷ cs) =
      let made = D.mkdir fs (joined current part) in
      let again = make_from fs current [] cs in
      let deeper = make_from made.0 (joined current part) [] cs in
      let longer = make_from fs current (part ++ c ∷ []) cs in
      if not (c == b'/')
      then longer
      else if is_empty part
      then again
      else if made.1
      then deeper
      else (made.0, false)

  -- storage::make_dirs
  unfoldable pub make_dirs : D.Files → Text → D.Files × Bool
  make_dirs fs [] = (fs, true)
  make_dirs fs (c ∷ cs) =
      if c == b'/' then make_from fs (b'/' ∷ []) [] cs else make_from fs [] [] (c ∷ cs)
