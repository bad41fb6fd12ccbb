-- ===== src/Library/Changes.antt =====
-- firmware/main/repositories/programs.cpp: the identifier of an upload, and what a call can make of the programs.
use rotation_target.Common.{
  ◌≡◌, refl, ap, sym, ◌∙◌, Bool, true, false, not, ◌&&◌, Option, none, some, [], ◌∷◌, length, suc,
  map, Bool-cases, Option-cases, inl, inr, fun_ext,
}
use rotation_target.Common.Int.{ℤ, eqb_ℤ, ◌≤ℤ◌, ◌<ℤ◌}
use rotation_target.Common.Text.{Text}
use rotation_target.Program.{Program}
use rotation_target.ProgramParser.{parse_program}
use rotation_target.Disk.{Disk}
use rotation_target.Json.{JsonLib}
use rotation_target.IdRange.{next_free_id, is_shipped_id}
use rotation_target.IdRange.Free.{taken, next_free_id-least}
use rotation_target.Library.{
  Library, Programs, UpdateResult, find, put, erase, has, path_for, upload_dir, first_upload_id,
  write_program, add_uploaded, replace, update_uploaded, remove,
}
use rotation_target.Library.Maps.{has-taken}

-- The least identifier of an upload that no program has.
abbrev pub LeastFree : Programs → ℤ → Type 0
LeastFree m id =
    (is_shipped_id id first_upload_id ≡ false)
    × (has m id ≡ false)
    × ((k : ℤ) → first_upload_id ≤ℤ k → k <ℤ id → has m k ≡ true)

length-keys : (m : Programs) → length (map (λ e. e.0) m) ≡ length m
length-keys [] = refl
length-keys (e ∷ m) = ap suc (length-keys m)

pub new_id :
    (m : Programs)
    → (id : ℤ) × (next_free_id (suc (length m)) first_upload_id (has m) ≡ some id) × LeastFree m id
new_id m =
    let ids = map (λ e. e.0) m in
    let (id, found, uploaded, free, least) = next_free_id-least first_upload_id ids in
    let same : has m ≡ taken ids = fun_ext (has-taken m) in
    (
      id,
      ap (λ f. next_free_id (suc (length m)) first_upload_id f) same
          ∙ ap (λ n. next_free_id (suc n) first_upload_id (taken ids)) (sym (length-keys m))
          ∙ found,
      (uploaded, has-taken m id ∙ free, λ k from to. has-taken m k ∙ least k from to),
    )

abbrev pub is_ok : UpdateResult → Bool
is_ok UpdateResult.ok = true
is_ok _ = false

module _ (J : JsonLib) (D : Disk) where
  -- To show something of the programs and the answer after an upload: the programs are as before, with no
  -- answer, or have one more.
  pub add_uploaded-cases :
      (P : Programs → Option ℤ → Type 0) (s : Library J D) (json : Text)
      → P s.programs none
      → ((id : ℤ) (p : Program)
          → has s.programs id ≡ false
          → (write_program J D s.files id (record p { id = id })).1 ≡ true
          → P (put s.programs id (record p { id = id })) (some id))
      → P (add_uploaded J D s json).0.programs (add_uploaded J D s json).1
  unfolding add_uploaded
  add_uploaded-cases P s json same more = elim (Option-cases (parse_program J json false)) [
    | inl e ↦ rw (e, add_uploaded) same
    | inr ((p, id_present), e) ↦
        let (id, found, (uploaded, free, least)) = new_id s.programs in
        elim (Bool-cases (write_program J D s.files id (record p { id = id })).1) [
          | inl done ↦ rw (e, add_uploaded) (rw found (rw done (more id p free done)))
          | inr fails ↦ rw (e, add_uploaded) (rw found (rw fails same))
        ]
  ]

  replace-cases :
      (P : Programs → UpdateResult → Type 0) (s : Library J D) (id : ℤ) (p : Program)
      (id_present : Bool)
      → ((e : UpdateResult) → is_ok e ≡ false → P s.programs e)
      → P (put s.programs id (record p { id = id })) UpdateResult.ok
      → let r = replace J D s id p id_present in P r.0.programs r.1
  unfolding replace
  replace-cases P s id p id_present same other =
      let named = record p { id = id } in
      elim (Bool-cases (id_present && not (eqb_ℤ p.id id))) [
        | inl apart ↦ rw apart (same UpdateResult.id_mismatch refl)
        | inr fits ↦ elim (Bool-cases (write_program J D s.files id named).1) [
          | inl done ↦ rw fits (rw done other)
          | inr fails ↦ rw fits (rw fails (same UpdateResult.write_failed refl))
        ]
      ]

  -- To show something of the programs and the answer after an update: the programs are as
  -- before, or the answer is ok and they have another program in the place of one that may be written.
  pub update_uploaded-cases :
      (P : Programs → UpdateResult → Type 0) (s : Library J D) (id : ℤ) (json : Text)
      → ((e : UpdateResult) → is_ok e ≡ false → P s.programs e)
      → ((old p : Program)
          → find s.programs id ≡ some old
          → old.readonly ≡ false
          → P (put s.programs id (record p { id = id })) UpdateResult.ok)
      → let r = update_uploaded J D s id json in P r.0.programs r.1
  unfolding update_uploaded
  update_uploaded-cases P s id json same other = elim (Option-cases (find s.programs id)) [
    | inl e ↦ rw (e, update_uploaded) (same UpdateResult.not_found refl)
    | inr (old, e) ↦ elim (Bool-cases old.readonly) [
      | inl r ↦ rw (e, update_uploaded) (rw r (same UpdateResult.is_readonly refl))
      | inr r ↦ elim (Option-cases (parse_program J json false)) [
        | inl n ↦ rw (e, update_uploaded) (rw r (rw n (same UpdateResult.invalid refl)))
        | inr ((p, id_present), n) ↦
            rw (e, update_uploaded)
              (rw r (rw n (replace-cases P s id p id_present same (other old p e r))))
      ]
    ]
  ]

  -- To show something of the programs and the answer after a removal: the programs are as
  -- before, with false, or without one that may be written.
  pub remove-cases :
      (P : Programs → Bool → Type 0) (s : Library J D) (id : ℤ)
      → P s.programs false
      → ((old : Program)
          → find s.programs id ≡ some old
          → old.readonly ≡ false
          → P (erase s.programs id) true)
      → P (remove J D s id).0.programs (remove J D s id).1
  unfolding remove
  remove-cases P s id same fewer = elim (Option-cases (find s.programs id)) [
    | inl e ↦ rw (e, remove) same
    | inr (old, e) ↦ elim (Bool-cases old.readonly) [
      | inl r ↦ rw (e, remove) (rw r same)
      | inr r ↦ elim (Bool-cases (D.unlink s.files (path_for upload_dir id)).1) [
        | inr fails ↦ rw (e, remove) (rw r (rw fails same))
        | inl done ↦ rw (e, remove) (rw r (rw done (fewer old e r)))
      ]
    ]
  ]
