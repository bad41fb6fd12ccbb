-- ===== src/Library/Boot.antt =====
-- firmware/main/repositories/programs.cpp: what is loaded of the shipped directory is read-only, and
-- what the next start loads of the files of the uploads.
use rotation_target.Common.{
  ℕ, ◌≤◌, ◌≡◌, ◌≢◌, refl, ap, sym, ◌∙◌, Bool, true, false, none, some, List, [], ◌∷◌, length, ltb,
  is_empty, if◌then◌else◌, arith, Bool-cases, Option-cases, inl, inr, ◌++◌,
}
use rotation_target.Common.Int.{ℤ, pos, eqb_ℤ}
use rotation_target.Common.Text.{
  Text, codes, decimal, decimal_ℕ, starts_with_digit, decimal-starts, decimal-digits,
  value_of-decimal,
}
use rotation_target.Program.{Program}
use rotation_target.ProgramText.{program_json}
use rotation_target.ProgramText.Docs.{program_doc}
use rotation_target.ProgramParser.FileNames.{IsFileName-parsed}
use mathlib.Core.Path.{subst}
use rotation_target.ProgramParser.{parse_program, parse_program_filename, program_from, series_from}
use rotation_target.ProgramParser.EventReads.{GoodProgram}
use rotation_target.ProgramParser.RoundTrip.{parse_program-program_json}
use rotation_target.Disk.{Disk, IsDisk, AllClose}
use rotation_target.Json.{JsonLib, IsReading, Doc, in_int32, has_room}
use rotation_target.Library.{
  Library, Programs, Issue, unreadable, find, put, path_for, upload_dir, shipped_dir,
  max_upload_bytes, read_file, keep, load_file, would_shadow_shipped, load_files, load_dir,
  load_all,
}
use rotation_target.Library.Maps.{find-put}
use rotation_target.Library.Stored.{Change, run, Stored, run-Stored}

-- Every program is read-only.
abbrev AllShipped : Programs → Type 0
AllShipped m = (id : ℤ) (p : Program) → find m id ≡ some p → p.readonly ≡ true

-- The programs and the issues behind a program that is loaded from the file of its identifier.
abbrev pub loaded_as : Programs → List Issue → ℕ → Program → Programs × List Issue
loaded_as m issues id p =
    if ltb max_upload_bytes (length (program_json p))
    then (m, issues ++ unreadable (path_for upload_dir (pos id)) ∷ [])
    else (put m (pos id) p, issues)

starts-length : (t : Text) → starts_with_digit t ≡ true → 1 ≤ length t
starts-length [] h = ground (arith, h)
starts-length (c ∷ cs) h = omega arith

module _ (J : JsonLib) where
  program_from-readonly :
      (root : J.Value) (flag b : Bool) (p : Program)
      → program_from J root flag ≡ some (p, b)
      → p.readonly ≡ flag
  unfolding program_from
  program_from-readonly root flag b p = elim (Bool-cases (J.is_object root)) [
    | inr e ↦ rw e (λ h. ground (arith, h))
    | inl e ↦ elim (Option-cases (series_from J (J.elements (J.get root (codes "series"))))) [
      | inl n ↦ rw e (rw n (λ h. ground (arith, h)))
      | inr (ss, n) ↦ rw e (rw n (λ h. ground (arith, h)))
    ]
  ]

  parse_program-readonly :
      (json : Text) (flag b : Bool) (p : Program)
      → parse_program J json flag ≡ some (p, b)
      → p.readonly ≡ flag
  unfolding parse_program
  parse_program-readonly json flag b p = elim (Option-cases (J.deserialize json)) [
    | inl e ↦ rw e (λ h. ground (arith, h))
    | inr (root, e) ↦ rw e (program_from-readonly root flag b p)
  ]

  module _ (D : Disk) where
    put-AllShipped :
        (m : Programs) (id : ℤ) (p : Program)
        → AllShipped m
        → p.readonly ≡ true
        → AllShipped (put m id p)
    put-AllShipped m id p all ro k q found = elim (Bool-cases (eqb_ℤ id k)) [
      | inl e ↦
          let here : some p ≡ some q = rw e at (sym (find-put m id k p) ∙ found) in
          let same : p ≡ q = cc here in ap (λ x. x.readonly) (sym same) ∙ ro
      | inr e ↦ all k q (rw e at (sym (find-put m id k p) ∙ found))
    ]

    keep-AllShipped :
        (id : ℤ) (flag : Bool) (file : Text) (m : Programs) (issues : List Issue) (p : Program)
        → AllShipped m
        → p.readonly ≡ true
        → AllShipped (keep J D id flag file (m, issues) p).0
    unfolding keep
    keep-AllShipped id flag file m issues p all ro = elim (Option-cases (find m id)) [
      | inl e ↦ rw (e, keep) (put-AllShipped m id (record p { id = id }) all ro)
      | inr (old, e) ↦
          let file_kept = put-AllShipped m id (record p { id = id }) all ro in
          elim (Bool-cases (would_shadow_shipped old.readonly flag)) [
            | inl w ↦ rw (e, keep) (rw w all)
            | inr w ↦ rw (e, keep) (rw w file_kept)
          ]
    ]

    load_file-AllShipped :
        (fs : D.Files) (dir : Text) (m : Programs) (issues : List Issue) (name : Text)
        → AllShipped m
        → AllShipped (load_file J D fs dir true (m, issues) name).0
    unfolding load_file find
    load_file-AllShipped fs dir m issues name all =
        elim (Option-cases (parse_program_filename name)) [
          | inl e ↦ rw (e, load_file) all
          | inr (id, e) ↦
              let file = dir ++ b'/' ∷ name in
              elim (Option-cases (read_file J D fs file)) [
                | inl n ↦ rw (e, load_file) (rw n all)
                | inr (json, n) ↦ elim (Option-cases (parse_program J json true)) [
                  | inl f ↦ rw (e, load_file) (rw n (rw f all))
                  | inr ((p, id_present), f) ↦
                      rw (e, load_file)
                        (rw n (
                          rw f (
                            keep-AllShipped id true file m issues p all
                              (parse_program-readonly json true id_present p f))))
                ]
              ]
        ]

    load_files-AllShipped :
        (fs : D.Files) (dir : Text) (loaded : Programs × List Issue) (names : List Text)
        → AllShipped loaded.0
        → AllShipped (load_files J D fs dir true loaded names).0
    unfolding load_files
    load_files-AllShipped fs dir loaded [] all = all
    load_files-AllShipped fs dir loaded (name ∷ names) all =
        load_files-AllShipped fs dir (load_file J D fs dir true loaded name) names
          (load_file-AllShipped fs dir loaded.0 loaded.1 name all)

    -- The library of a device that has just started.
    abbrev pub booted : D.Files → Library J D
    booted fs = record { programs = (load_all J D fs).0; files = fs }

    booted-AllShipped :
        (fs : D.Files) → D.names fs upload_dir ≡ [] → AllShipped (booted fs).programs
    unfolding load_all load_dir load_files find
    booted-AllShipped fs empty =
        rw (empty, load_files)
          (load_files-AllShipped fs shipped_dir ([], []) (D.names fs shipped_dir)
            (λ id p h. ground (arith, h)))

    module _ (W : IsDisk D) (reads : Doc → J.Value) (R : IsReading J reads) where
      clash :
          (m : Programs) (k : ℤ) (q : Program)
          → AllShipped m
          → find m k ≡ some q
          → q.readonly ≢ false
      clash m k q all was mine = ground (arith, all k q was, mine)

      booted-Stored : (fs : D.Files) → D.names fs upload_dir ≡ [] → Stored J D (booted fs)
      booted-Stored fs empty k q was mine =
          absurd (clash (booted fs).programs k q (booted-AllShipped fs empty) was mine)

      read_file-content :
          (fs : D.Files) (path t : Text)
          → is_empty t ≡ false
          → D.content fs path ≡ some t
          → read_file J D fs path ≡ (if ltb max_upload_bytes (length t) then none else some t)
      unfolding read_file
      read_file-content fs path t full content = rw (content, read_file) (rw full refl)

      file_number :
          (id : ℕ)
          → in_int32 (pos id) ≡ true
          → parse_program_filename (decimal_ℕ id ++ codes ".json") ≡ some (pos id)
      file_number id h = IsFileName-parsed (decimal_ℕ id ++ codes ".json") (pos id) (
        decimal_ℕ id,
        refl,
        starts-length (decimal_ℕ id) (decimal-starts id),
        decimal-digits id,
        ground (arith, h, value_of-decimal id),
        ap pos (sym (value_of-decimal id)),
      )

      -- The text of a program, as the file of its identifier.
      load_text :
          (fs : D.Files) (id : ℕ) (p : Program) (m : Programs) (issues : List Issue)
          → p.readonly ≡ false
          → p.id ≡ pos id
          → GoodProgram p
          → has_room J (program_doc p) ≡ true
          → is_empty (program_json p) ≡ false
          → D.content fs (path_for upload_dir (pos id)) ≡ some (program_json p)
          → find m (pos id) ≡ none
          → load_file J D fs upload_dir false (m, issues) (decimal_ℕ id ++ codes ".json")
            ≡ loaded_as m issues id p
      unfolding path_for decimal load_file keep
      load_text fs id p m issues mine own good room full content free =
          let text =
            read_file-content fs (path_for upload_dir (pos id)) (program_json p) full content in
          let parsed = parse_program-program_json J reads R p false good room in
          let same : record p { readonly = false; id = pos id } ≡ p = ground (arith, mine, own) in
          let named = file_number id (subst (λ i. in_int32 i ≡ true) own good.0) in
          elim (Bool-cases (ltb max_upload_bytes (length (program_json p)))) [
            | inl large ↦ rw (named, load_file) (rw text (rw large refl))
            | inr small ↦
                rw (named, load_file)
                  (rw text (
                    rw small
                      (rw parsed (rw (free, keep) (ap (λ q. (put m (pos id) q, issues)) same)))))
          ]

      program_json_full : (p : Program) → is_empty (program_json p) ≡ false
      unfolding program_json
      program_json_full p = refl

      -- On a device that starts with nothing uploaded, and on whose files no fclose fails, every program that is
      -- served after any calls and is not a shipped one has its identifier; and when the next start comes to
      -- the file of that name, with no program under the identifier yet, it loads that program, or, where
      -- its text is of more than 1048576 bytes, reports that the file could not be read. The program is as the
      -- parser makes them (durations clamped, numbers of an int32_t, no bank named both ways, texts without
      -- a NUL), with an identifier from 0, and ArduinoJson has room for its document.
      pub uploads_survive :
          (fs : D.Files) (cs : List Change) (id : ℕ) (p : Program) (m : Programs)
          (issues : List Issue)
          → AllClose D
          → D.names fs upload_dir ≡ []
          → find (run J D (booted fs) cs).programs (pos id) ≡ some p
          → p.readonly ≡ false
          → GoodProgram p
          → has_room J (program_doc p) ≡ true
          → find m (pos id) ≡ none
          → (p.id ≡ pos id)
            × (load_file J D
                  (run J D (booted fs) cs).files
                  upload_dir
                  false
                  (m, issues)
                  (decimal_ℕ id ++ codes ".json")
                ≡ loaded_as m issues id p)
      uploads_survive fs cs id p m issues closes empty found mine good room free =
          let kept =
            run-Stored J D W closes (booted fs) cs (booted-Stored fs empty) (pos id) p found mine in
          (
            kept.0,
            load_text (run J D (booted fs) cs).files id p m issues mine kept.0 good room
                (program_json_full p) kept.1 free,
          )
