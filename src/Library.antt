-- ===== src/Library.antt =====
-- firmware/main/repositories/programs.cpp: the programs that a device knows. The map from identifiers is a
-- list in their order, whose entries with one identifier are one. The files, ArduinoJson and the issues'
-- channel are outside: what the code would tell the clients is the list of issues.
pub mod Maps
pub mod Paths
pub mod Writes
pub mod Stored
pub mod Boot
pub mod Changes
pub mod Shipped
mod Tests
use rotation_target.Common.{
  ℕ, suc, ◌≡◌, Bool, true, false, not, ◌&&◌, ◌||◌, Option, none, some, List, [], ◌∷◌, ◌++◌, map,
  length, ltb, ◌==◌, is_empty, if◌then◌else◌,
}
use rotation_target.Common.Int.{ℤ, pos, eqb_ℤ, ltb_ℤ}
use rotation_target.Common.Text.{Text, codes, decimal}
use rotation_target.Json.{JsonLib}
use rotation_target.Program.{Program}
use rotation_target.ProgramText.{program_json}
use rotation_target.ProgramParser.{parse_program, parse_program_filename}
use rotation_target.IdRange.{next_free_id, would_shadow_shipped}
use rotation_target.Disk.{Disk, make_dirs}

abbrev pub Programs : Type 0
Programs = List (ℤ × Program)

-- std::map::find
unfoldable pub find : Programs → ℤ → Option Program
find [] id = none
find ((k, p) ∷ m) id = let rest = find m id in if eqb_ℤ k id then some p else rest

-- s_programs[id] = p
unfoldable pub put : Programs → ℤ → Program → Programs
put [] id p = (id, p) ∷ []
put ((k, q) ∷ m) id p =
    let rest = put m id p in
    if eqb_ℤ k id then (id, p) ∷ m else if ltb_ℤ id k then (id, p) ∷ (k, q) ∷ m else (k, q) ∷ rest

-- std::map::erase
unfoldable pub erase : Programs → ℤ → Programs
erase [] id = []
erase ((k, q) ∷ m) id = let rest = erase m id in if eqb_ℤ k id then rest else (k, q) ∷ rest

-- std::map::count
abbrev pub has : Programs → ℤ → Bool
has m id = elim (find m id) [ none ↦ false | some p ↦ true ]

abbrev pub shipped_dir : Text
shipped_dir = codes "/embedded/programs"

abbrev pub upload_dir : Text
upload_dir = codes "/userdata/programs"

abbrev pub max_upload_bytes : ℕ
max_upload_bytes = 1048576

abbrev pub first_upload_id : ℤ
first_upload_id = pos 1000

-- path_for
unfoldable pub path_for : Text → ℤ → Text
path_for dir id = dir ++ b'/' ∷ (decimal id ++ codes ".json")

-- An issue that is broadcast, with the file it is about.
pub data Issue : Type 0 where
  unreadable malformed collides : Text → Issue

pub data UpdateResult : Type 0 where
  ok not_found is_readonly invalid id_mismatch write_failed : UpdateResult

module _ (J : JsonLib) (D : Disk) where
  pub record Library : Type 0 where
    pub programs : Programs
    pub files : D.Files

  -- read_file
  unfoldable pub read_file : D.Files → Text → Option Text
  read_file fs path = elim (D.content fs path) [
    | none ↦ none
    | some t ↦ if is_empty t || ltb max_upload_bytes (length t) then none else some t
  ]

  -- write_program, behind fopen
  unfoldable pub commit : D.Files → ℕ → Text → Text → Text → D.Files × Bool
  commit fs written serialized staging path =
      let moved = D.rename fs staging path in
      if not (written == length serialized)
      then ((D.unlink fs staging).0, false)
      else if not moved.1
      then ((D.unlink moved.0 staging).0, false)
      else (moved.0, true)

  abbrev pub staging_for : ℤ → Text
  staging_for id = path_for upload_dir id ++ codes ".tmp"

  -- write_program
  unfoldable pub write_program : D.Files → ℤ → Program → D.Files × Bool
  write_program fs id p =
      let fs1 = (make_dirs D fs upload_dir).0 in
      elim (D.create fs1 (staging_for id) (program_json p)) [
        | none ↦ (fs1, false)
        | some (fs2, written, closed) ↦
            commit fs2 written (program_json p) (staging_for id) (path_for upload_dir id)
      ]

  -- A program file that is parsed, behind parse_program in load_dir
  unfoldable pub keep : ℤ → Bool → Text → Programs × List Issue → Program → Programs × List Issue
  keep id readonly file (m, issues) p = elim (find m id) [
    | none ↦ (put m id (record p { id = id }), issues)
    | some old ↦
        if would_shadow_shipped old.readonly readonly
        then (m, issues ++ collides file ∷ [])
        else (put m id (record p { id = id }), issues)
  ]

  -- One turn of the loop of load_dir.
  unfoldable pub load_file :
      D.Files → Text → Bool → Programs × List Issue → Text → Programs × List Issue
  load_file fs dir readonly (m, issues) name = elim (parse_program_filename name) [
    | none ↦ (m, issues)
    | some id ↦
        let file = dir ++ b'/' ∷ name in
        elim (read_file fs file) [
          | none ↦ (m, issues ++ unreadable file ∷ [])
          | some json ↦ elim (parse_program J json readonly) [
            | none ↦ (m, issues ++ malformed file ∷ [])
            | some (p, id_present) ↦ keep id readonly file (m, issues) p
          ]
        ]
  ]

  unfoldable pub load_files :
      D.Files → Text → Bool → Programs × List Issue → List Text → Programs × List Issue
  load_files fs dir readonly loaded [] = loaded
  load_files fs dir readonly loaded (name ∷ names) =
      load_files fs dir readonly (load_file fs dir readonly loaded name) names

  -- load_dir
  unfoldable pub load_dir : D.Files → Text → Bool → Programs × List Issue → Programs × List Issue
  load_dir fs dir readonly loaded = load_files fs dir readonly loaded (D.names fs dir)

  -- load_all
  unfoldable pub load_all : D.Files → Programs × List Issue
  load_all fs = load_dir fs upload_dir false (load_dir fs shipped_dir true ([], []))

  -- add_uploaded, with none for its -1 (and where the search for an identifier would run out of turns)
  unfoldable pub add_uploaded : Library → Text → Library × Option ℤ
  add_uploaded s json = elim (parse_program J json false) [
    | none ↦ (s, none)
    | some (p, id_present) ↦
        elim (next_free_id (suc (length s.programs)) first_upload_id (has s.programs)) [
          | none ↦ (s, none)
          | some id ↦
              let named = record p { id = id } in
              let (fs, done) = write_program s.files id named in
              if done
              then (record { programs = put s.programs id named; files = fs }, some id)
              else (record { programs = s.programs; files = fs }, none)
        ]
  ]

  -- update_uploaded, behind the parse
  unfoldable pub replace : Library → ℤ → Program → Bool → Library × UpdateResult
  replace s id p id_present =
      let named = record p { id = id } in
      let (fs, done) = write_program s.files id named in
      if id_present && not (eqb_ℤ p.id id)
      then (s, id_mismatch)
      else if done
      then (record { programs = put s.programs id named; files = fs }, ok)
      else (record { programs = s.programs; files = fs }, write_failed)

  -- update_uploaded
  unfoldable pub update_uploaded : Library → ℤ → Text → Library × UpdateResult
  update_uploaded s id json = elim (find s.programs id) [
    | none ↦ (s, not_found)
    | some old ↦ if old.readonly then (s, is_readonly) else elim (parse_program J json false) [
      | none ↦ (s, invalid)
      | some (p, id_present) ↦ replace s id p id_present
    ]
  ]

  -- remove
  unfoldable pub remove : Library → ℤ → Library × Bool
  remove s id = elim (find s.programs id) [
    | none ↦ (s, false)
    | some old ↦
        let (fs, done) = D.unlink s.files (path_for upload_dir id) in
        if old.readonly
        then (s, false)
        else if done
        then (record { programs = erase s.programs id; files = fs }, true)
        else (record { programs = s.programs; files = fs }, false)
  ]
