-- ===== src/Disk/Memory.antt =====
-- Files in memory: an instance for the C library's calls, at which the theorems can be run.
use rotation_target.Common.{
  ℕ, ◌≡◌, ◌≢◌, refl, ap, sym, ◌∙◌, Bool, true, false, Option, none, some, List, [], ◌∷◌, length,
  ◌==◌, if◌then◌else◌, arith, Bool-cases, Option-cases, inl, inr,
}
use rotation_target.Common.Text.{Text, text_eq, text_eq_refl, text_eq→eq}
use rotation_target.Disk.{Disk, IsDisk, AllClose}

-- Each path with its content, the first entry of a path counting.
abbrev pub Memory : Type 0
Memory = List (Text × Text)

unfoldable pub content : Memory → Text → Option Text
content [] p = none
content ((k, t) ∷ fs) p = let rest = content fs p in if text_eq k p then some t else rest

unfoldable pub forget : Memory → Text → Memory
forget [] p = []
forget ((k, t) ∷ fs) p = let rest = forget fs p in if text_eq k p then rest else (k, t) ∷ rest

-- What follows the directory and a slash.
unfoldable pub within : Text → Text → Option Text
within [] [] = none
within [] (c ∷ cs) = if c == b'/' then some cs else none
within (d ∷ ds) [] = none
within (d ∷ ds) (c ∷ cs) = let rest = within ds cs in if c == d then rest else none

unfoldable pub listing : Memory → Text → List Text
listing [] dir = []
listing ((k, t) ∷ fs) dir = elim (within dir k) [
  | none ↦ listing fs dir
  | some name ↦ name ∷ listing fs dir
]

unfoldable pub move : Memory → Text → Text → Memory × Bool
move fs p q = elim (content fs p) [ none ↦ (fs, false) | some t ↦ ((q, t) ∷ forget fs p, true) ]

unfoldable pub delete : Memory → Text → Memory × Bool
delete fs p = elim (content fs p) [ none ↦ (fs, false) | some t ↦ (forget fs p, true) ]

abbrev pub memory : Disk
memory = record {
  Files = Memory;
  content = content;
  names = listing;
  create = λ fs p t. some ((p, t) ∷ fs, length t, true);
  rename = move;
  unlink = delete;
  mkdir = λ fs d. (fs, true);
}

text_apart : (p q : Text) → q ≢ p → text_eq p q ≡ false
text_apart p q apart = elim (Bool-cases (text_eq p q)) [
  | inl e ↦ absurd (apart (sym (text_eq→eq p q e)))
  | inr e ↦ e
]

content-own : (fs : Memory) (p t : Text) → content ((p, t) ∷ fs) p ≡ some t
unfolding content
content-own fs p t = rw (text_eq_refl p) refl

content-other : (fs : Memory) (p t q : Text) → q ≢ p → content ((p, t) ∷ fs) q ≡ content fs q
unfolding content
content-other fs p t q apart = rw (text_apart p q apart) refl

content-forget : (fs : Memory) (p q : Text) → q ≢ p → content (forget fs p) q ≡ content fs q
unfolding content forget
content-forget [] p q apart = refl
content-forget ((k, t) ∷ fs) p q apart = elim (Bool-cases (text_eq k p)) [
  | inl e ↦
      let other : text_eq k q ≡ false = rw (text_eq→eq k p e) (text_apart p q apart) in
      rw e (rw other (content-forget fs p q apart))
  | inr e ↦ rw e (ap (λ o. if text_eq k q then some t else o) (content-forget fs p q apart))
]

content-forgotten : (fs : Memory) (p : Text) → content (forget fs p) p ≡ none
unfolding content forget
content-forgotten [] p = refl
content-forgotten ((k, t) ∷ fs) p = elim (Bool-cases (text_eq k p)) [
  | inl e ↦ rw e (content-forgotten fs p)
  | inr e ↦ rw e (rw e (content-forgotten fs p))
]

move-moved :
    (fs : Memory) (p q : Text) → (move fs p q).1 ≡ true → content (move fs p q).0 q ≡ content fs p
unfolding move
move-moved fs p q = elim (Option-cases (content fs p)) [
  | inl e ↦ rw (e, move) (λ h. ground (arith, h))
  | inr (t, e) ↦ rw (e, move) (λ h. content-own (forget fs p) q t)
]

move-other : (fs : Memory) (p q r : Text) → r ≢ p → r ≢ q → content (move fs p q).0 r ≡ content fs r
unfolding move
move-other fs p q r np nq = elim (Option-cases (content fs p)) [
  | inl e ↦ rw (e, move) refl
  | inr (t, e) ↦ rw (e, move) (content-other (forget fs p) q t r nq ∙ content-forget fs p r np)
]

move-failed :
    (fs : Memory) (p q r : Text)
    → (move fs p q).1 ≡ false
    → content (move fs p q).0 r ≡ content fs r
unfolding move
move-failed fs p q r = elim (Option-cases (content fs p)) [
  | inl e ↦ rw (e, move) (λ h. refl)
  | inr (t, e) ↦ rw (e, move) (λ h. ground (arith, h))
]

delete-gone : (fs : Memory) (p : Text) → (delete fs p).1 ≡ true → content (delete fs p).0 p ≡ none
unfolding delete
delete-gone fs p = elim (Option-cases (content fs p)) [
  | inl e ↦ rw (e, delete) (λ h. ground (arith, h))
  | inr (t, e) ↦ rw (e, delete) (λ h. content-forgotten fs p)
]

delete-other : (fs : Memory) (p q : Text) → q ≢ p → content (delete fs p).0 q ≡ content fs q
unfolding delete
delete-other fs p q apart = elim (Option-cases (content fs p)) [
  | inl e ↦ rw (e, delete) refl
  | inr (t, e) ↦ rw (e, delete) (content-forget fs p q apart)
]

delete-failed :
    (fs : Memory) (p q : Text) → (delete fs p).1 ≡ false → content (delete fs p).0 q ≡ content fs q
unfolding delete
delete-failed fs p q = elim (Option-cases (content fs p)) [
  | inl e ↦ rw (e, delete) (λ h. refl)
  | inr (t, e) ↦ rw (e, delete) (λ h. ground (arith, h))
]

created :
    (fs fs' : Memory) (p t : Text) (n : ℕ) (closed : Bool)
    → memory.create fs p t ≡ some (fs', n, closed)
    → ◌≡◌ {A = Memory × (ℕ × Bool)} ((p, t) ∷ fs, (length t, true)) (fs', (n, closed))
created fs fs' p t n closed h =
    let whole : Memory × (ℕ × Bool) = ((p, t) ∷ fs, (length t, true)) in
    let given : Memory × (ℕ × Bool) = (fs', (n, closed)) in
    let same : ◌≡◌ {A = Memory × (ℕ × Bool)} whole given = cc h in same

pub memory-AllClose : AllClose memory
memory-AllClose fs fs' p t n closed h = ap (λ x. x.1.1) (sym (created fs fs' p t n closed h))

pub memory-IsDisk : IsDisk memory
memory-IsDisk = record {
  create-whole = λ fs fs' p t h.
      ap (λ x. content x.0 p) (sym (created fs fs' p t (length t) true h)) ∙ content-own fs p t;
  create-other = λ fs fs' p t q n closed h apart.
      ap (λ x. content x.0 q) (sym (created fs fs' p t n closed h)) ∙ content-other fs p t q apart;
  rename-moved = move-moved;
  rename-other = move-other;
  rename-failed = move-failed;
  unlink-gone = delete-gone;
  unlink-other = delete-other;
  unlink-failed = delete-failed;
  mkdir-content = λ fs d q. refl;
}
