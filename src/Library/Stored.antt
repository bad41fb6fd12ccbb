-- ===== src/Library/Stored.antt =====
-- firmware/main/repositories/programs.cpp: every program that was uploaded is in its file.
use rotation_target.Common.{
  ◌≡◌, ◌≢◌, ap, sym, ◌∙◌, Bool, true, false, not, ◌&&◌, none, some, List, [], ◌∷◌, length, suc,
  arith, Bool-cases, Option-cases, inl, inr,
}
use rotation_target.Common.Int.{ℤ, eqb_ℤ, eqb→eq}
use rotation_target.Common.Text.{Text}
use rotation_target.Program.{Program}
use rotation_target.ProgramText.{program_json}
use rotation_target.ProgramParser.{parse_program}
use rotation_target.Disk.{Disk, IsDisk, AllClose}
use rotation_target.Json.{JsonLib}
use rotation_target.IdRange.{next_free_id}
use rotation_target.Library.{
  Library, find, put, erase, has, path_for, upload_dir, first_upload_id, write_program,
  add_uploaded, replace, update_uploaded, remove,
}
use rotation_target.Library.Maps.{find-put, find-erase}
use rotation_target.Library.Paths.{path_for-injective}
use rotation_target.Library.Writes.{write_program-other, write_program-failed, write_program-done}

eqb-apart : (id k : ℤ) → eqb_ℤ id k ≡ false → k ≢ id
eqb-apart id k e h = let same : eqb_ℤ id id ≡ false = rw h at e in ground (arith, same)

-- The calls that the web server makes.
pub data Change : Type 0 where
  adds : Text → Change
  updates : ℤ → Text → Change
  removes : ℤ → Change

module _ (J : JsonLib) (D : Disk) where
  abbrev pub apply : Library J D → Change → Library J D
  apply s (adds json) = (add_uploaded J D s json).0
  apply s (updates id json) = (update_uploaded J D s id json).0
  apply s (removes id) = (remove J D s id).0

  unfoldable pub run : Library J D → List Change → Library J D
  run s [] = s
  run s (c ∷ cs) = run (apply s c) cs

  -- Each program that is no shipped one has its identifier, and its text is in its file.
  abbrev pub Stored : Library J D → Type 0
  Stored s =
      (id : ℤ) (p : Program)
      → find s.programs id ≡ some p
      → p.readonly ≡ false
      → (p.id ≡ id) × (D.content s.files (path_for upload_dir id) ≡ some (program_json p))

  module _ (W : IsDisk D) (closes : AllClose D) where
    write-Stored :
        (s : Library J D) (id : ℤ) (p : Program)
        → Stored s
        → (write_program J D s.files id (record p { id = id })).1 ≡ true
        → Stored (record {
          programs = put s.programs id (record p { id = id });
          files = (write_program J D s.files id (record p { id = id })).0;
        })
    write-Stored s id p stored done k q found mine =
        let named = record p { id = id } in
        elim (Bool-cases (eqb_ℤ id k)) [
          | inl e ↦
              let same = eqb→eq id k e in
              let was : some named ≡ some q =
                rw e at (sym (find-put s.programs id k named) ∙ found) in
              let new : named ≡ q = cc was in
              (
                sym (ap (λ x. x.id) new) ∙ same,
                ap (λ i. D.content (write_program J D s.files id named).0 (path_for upload_dir i))
                      (sym same)
                    ∙ write_program-done J D W s.files id named closes done
                    ∙ ap (λ x. some (program_json x)) new,
              )
          | inr e ↦
              let was : find s.programs k ≡ some q =
                rw e at (sym (find-put s.programs id k named) ∙ found) in
              let old = stored k q was mine in
              (old.0, write_program-other J D W s.files id k named (eqb-apart id k e) ∙ old.1)
        ]

    failed-Stored :
        (s : Library J D) (id : ℤ) (p : Program)
        → Stored s
        → (write_program J D s.files id p).1 ≡ false
        → Stored (record { programs = s.programs; files = (write_program J D s.files id p).0 })
    failed-Stored s id p stored fails k q found mine =
        let old = stored k q found mine in
        (old.0, write_program-failed J D W s.files id k p fails ∙ old.1)

    add_uploaded-Stored :
        (s : Library J D) (json : Text) → Stored s → Stored (add_uploaded J D s json).0
    unfolding add_uploaded
    add_uploaded-Stored s json stored = elim (Option-cases (parse_program J json false)) [
      | inl e ↦ rw (e, add_uploaded) stored
      | inr ((p, id_present), e) ↦
          elim (Option-cases
            (next_free_id (suc (length s.programs)) first_upload_id (has s.programs))) [
              | inl n ↦ rw (e, add_uploaded) (rw n stored)
              | inr (id, n) ↦
                  let named = record p { id = id } in
                  elim (Bool-cases (write_program J D s.files id named).1) [
                    | inl done ↦
                        rw (e, add_uploaded) (rw n (rw done (write-Stored s id p stored done)))
                    | inr fails ↦
                        rw (e, add_uploaded)
                          (rw n (rw fails (failed-Stored s id named stored fails)))
                  ]
            ]
    ]

    replace-Stored :
        (s : Library J D) (id : ℤ) (p : Program) (id_present : Bool)
        → Stored s
        → Stored (replace J D s id p id_present).0
    unfolding replace
    replace-Stored s id p id_present stored =
        let named = record p { id = id } in
        elim (Bool-cases (id_present && not (eqb_ℤ p.id id))) [
          | inl other ↦ rw other stored
          | inr same ↦ elim (Bool-cases (write_program J D s.files id named).1) [
            | inl done ↦ rw same (rw done (write-Stored s id p stored done))
            | inr fails ↦ rw same (rw fails (failed-Stored s id named stored fails))
          ]
        ]

    update_uploaded-Stored :
        (s : Library J D) (id : ℤ) (json : Text)
        → Stored s
        → Stored (update_uploaded J D s id json).0
    unfolding update_uploaded
    update_uploaded-Stored s id json stored = elim (Option-cases (find s.programs id)) [
      | inl e ↦ rw (e, update_uploaded) stored
      | inr (old, e) ↦ elim (Bool-cases old.readonly) [
        | inl r ↦ rw (e, update_uploaded) (rw r stored)
        | inr r ↦ elim (Option-cases (parse_program J json false)) [
          | inl n ↦ rw (e, update_uploaded) (rw r (rw n stored))
          | inr ((p, id_present), n) ↦
              rw (e, update_uploaded) (rw r (rw n (replace-Stored s id p id_present stored)))
        ]
      ]
    ]

    unlink_other :
        (fs : D.Files) (id k : ℤ)
        → eqb_ℤ id k ≡ false
        → D.content (D.unlink fs (path_for upload_dir id)).0 (path_for upload_dir k)
          ≡ D.content fs (path_for upload_dir k)
    unlink_other fs id k e =
        W.unlink-other fs (path_for upload_dir id) (path_for upload_dir k)
          (λ h. eqb-apart id k e (path_for-injective k id h))

    removed-Stored :
        (s : Library J D) (id : ℤ)
        → Stored s
        → Stored (record {
          programs = erase s.programs id;
          files = (D.unlink s.files (path_for upload_dir id)).0;
        })
    removed-Stored s id stored k q found mine = elim (Bool-cases (eqb_ℤ id k)) [
      | inl e ↦
          let gone : none ≡ some q = rw e at (sym (find-erase s.programs id k) ∙ found) in
          ground (arith, gone)
      | inr e ↦
          let was : find s.programs k ≡ some q =
            rw e at (sym (find-erase s.programs id k) ∙ found) in
          let old = stored k q was mine in (old.0, unlink_other s.files id k e ∙ old.1)
    ]

    remove-Stored : (s : Library J D) (id : ℤ) → Stored s → Stored (remove J D s id).0
    unfolding remove
    remove-Stored s id stored = elim (Option-cases (find s.programs id)) [
      | inl e ↦ rw (e, remove) stored
      | inr (old, e) ↦ elim (Bool-cases old.readonly) [
        | inl r ↦ rw (e, remove) (rw r stored)
        | inr r ↦
            let path = path_for upload_dir id in
            elim (Bool-cases (D.unlink s.files path).1) [
              | inl done ↦ rw (e, remove) (rw r (rw done (removed-Stored s id stored)))
              | inr fails ↦
                  rw (e, remove)
                    (rw r (
                      rw fails (λ k q found mine.
                        let old = stored k q found mine in
                        (
                          old.0,
                          W.unlink-failed s.files path (path_for upload_dir k) fails ∙ old.1,
                        ))))
            ]
      ]
    ]

    apply-Stored : (s : Library J D) (c : Change) → Stored s → Stored (apply s c)
    apply-Stored s (adds json) stored = add_uploaded-Stored s json stored
    apply-Stored s (updates id json) stored = update_uploaded-Stored s id json stored
    apply-Stored s (removes id) stored = remove-Stored s id stored

    pub run-Stored : (s : Library J D) (cs : List Change) → Stored s → Stored (run s cs)
    unfolding run
    run-Stored s [] stored = stored
    run-Stored s (c ∷ cs) stored = run-Stored (apply s c) cs (apply-Stored s c stored)
