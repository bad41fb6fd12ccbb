-- ===== src/Library/Shipped.antt =====
-- firmware/main/repositories/programs.cpp: the identifier of an upload, and the shipped programs.
use rotation_target.Common.{
  ◌≡◌, ◌≢◌, refl, ap, sym, ◌∙◌, Bool, true, false, none, some, List, [], ◌∷◌, if◌then◌else◌, arith,
  Bool-cases, inl, inr,
}
use rotation_target.Common.Int.{ℤ, eqb_ℤ, eqb→eq}
use rotation_target.Common.Text.{Text}
use rotation_target.Program.{Program}
use rotation_target.ProgramParser.{parse_program}
use rotation_target.Disk.{Disk}
use rotation_target.Json.{JsonLib}
use rotation_target.Library.{
  Library, Programs, find, put, has, write_program, add_uploaded, update_uploaded, remove,
}
use rotation_target.Library.Maps.{find-put, find-erase}
use rotation_target.Library.Changes.{
  LeastFree, new_id, add_uploaded-cases, update_uploaded-cases, remove-cases,
}
use rotation_target.Library.Stored.{Change, adds, updates, removes, apply, run}

none-has : (m : Programs) (id : ℤ) (p : Program) → find m id ≡ some p → has m id ≢ false
none-has m id p found free = ground (arith, rw (found, has) at free)

pub put-other :
    (m : Programs) (id k : ℤ) (p q : Program)
    → find m k ≡ some q
    → eqb_ℤ id k ≡ false
    → find (put m id p) k ≡ some q
put-other m id k p q kept e = find-put m id k p ∙ rw e kept

-- The key of an entry that a test tells from the read-only one.
writable-apart :
    (m : Programs) (id k : ℤ) (old q : Program)
    → find m id ≡ some old
    → old.readonly ≡ false
    → find m k ≡ some q
    → q.readonly ≡ true
    → eqb_ℤ id k ≡ false
writable-apart m id k old q found w kept ro = elim (Bool-cases (eqb_ℤ id k)) [
  | inr e ↦ e
  | inl e ↦
      let same : some old ≡ some q = sym found ∙ ap (find m) (eqb→eq id k e) ∙ kept in
      let equal : old ≡ q = cc same in
      let clash : false ≡ true = sym w ∙ ap (λ x. x.readonly) equal ∙ ro in ground (arith, clash)
]

pub free-apart :
    (m : Programs) (id k : ℤ) (q : Program)
    → has m id ≡ false
    → find m k ≡ some q
    → eqb_ℤ id k ≡ false
free-apart m id k q free kept = elim (Bool-cases (eqb_ℤ id k)) [
  | inr e ↦ e
  | inl e ↦ absurd (none-has m id q (ap (find m) (eqb→eq id k e) ∙ kept) free)
]

module _ (J : JsonLib) (D : Disk) where
  -- What an upload that parses comes to, by whether it can be written.
  abbrev pub Added : Library J D → Text → Program → ℤ → Type 0
  Added s json p id =
      let named = record p { id = id } in
      let (after, answer) = add_uploaded J D s json in
      if (write_program J D s.files id named).1
      then (answer ≡ some id) × (after.programs ≡ put s.programs id named)
      else (answer ≡ none) × (after.programs ≡ s.programs)

  -- A document that parses is added under the least identifier of an upload that no program has, with that
  -- identifier in it, and the identifier is the answer; and where it cannot be written there is no
  -- answer and the programs are as before.
  pub add_uploaded_lem :
      (s : Library J D) (json : Text) (p : Program) (id_present : Bool)
      → parse_program J json false ≡ some (p, id_present)
      → (id : ℤ) × LeastFree s.programs id × Added s json p id
  unfolding add_uploaded
  add_uploaded_lem s json p id_present parsed =
      let (id, found, least) = new_id s.programs in
      let named = record p { id = id } in
      elim (Bool-cases (write_program J D s.files id named).1) [
        | inl done ↦ (id, least, rw (parsed, add_uploaded) (rw found (rw done (refl, refl))))
        | inr fails ↦ (id, least, rw (parsed, add_uploaded) (rw found (rw fails (refl, refl))))
      ]

  -- One program that is read-only, under its identifier.
  abbrev Keeps : ℤ → Program → Library J D → Type 0
  Keeps k q s = find s.programs k ≡ some q

  add_uploaded-Keeps :
      (s : Library J D) (json : Text) (k : ℤ) (q : Program)
      → Keeps k q s
      → Keeps k q (add_uploaded J D s json).0
  add_uploaded-Keeps s json k q kept =
      add_uploaded-cases J D (λ m answer. find m k ≡ some q) s json kept
        λ id p free done.
          put-other s.programs id k (record p { id = id }) q kept
            (free-apart s.programs id k q free kept)

  update_uploaded-Keeps :
      (s : Library J D) (id : ℤ) (json : Text) (k : ℤ) (q : Program)
      → q.readonly ≡ true
      → Keeps k q s
      → Keeps k q (update_uploaded J D s id json).0
  update_uploaded-Keeps s id json k q ro kept =
      update_uploaded-cases J D (λ m result. find m k ≡ some q) s id json (λ e no. kept)
        λ old p found w.
          put-other s.programs id k (record p { id = id }) q kept
            (writable-apart s.programs id k old q found w kept ro)

  remove-Keeps :
      (s : Library J D) (id k : ℤ) (q : Program)
      → q.readonly ≡ true
      → Keeps k q s
      → Keeps k q (remove J D s id).0
  remove-Keeps s id k q ro kept =
      remove-cases J D (λ m removed. find m k ≡ some q) s id kept
        λ old found w.
          find-erase s.programs id k
          ∙ rw (writable-apart s.programs id k old q found w kept ro) kept

  apply-Keeps :
      (s : Library J D) (c : Change) (k : ℤ) (q : Program)
      → q.readonly ≡ true
      → Keeps k q s
      → Keeps k q (apply J D s c)
  apply-Keeps s (adds json) k q ro kept = add_uploaded-Keeps s json k q kept
  apply-Keeps s (updates id json) k q ro kept = update_uploaded-Keeps s id json k q ro kept
  apply-Keeps s (removes id) k q ro kept = remove-Keeps s id k q ro kept

  -- Whatever is added, updated and removed, whatever ArduinoJson and the files answer, a read-only program
  -- is served as it was.
  pub shipped_stay :
      (s : Library J D) (cs : List Change) (k : ℤ) (q : Program)
      → q.readonly ≡ true
      → find s.programs k ≡ some q
      → find (run J D s cs).programs k ≡ some q
  unfolding run
  shipped_stay s [] k q ro kept = kept
  shipped_stay s (c ∷ cs) k q ro kept =
      shipped_stay (apply J D s c) cs k q ro (apply-Keeps s c k q ro kept)
