-- ===== src/Library/Writes.antt =====
-- firmware/main/repositories/programs.cpp: what write_program leaves on the disk.
use rotation_target.Common.{
  ℕ, ◌≡◌, ◌≢◌, ap, ◌∙◌, true, false, some, length, ◌==◌, ==_iff, arith, Bool-cases, Option-cases,
  inl, inr,
}
use rotation_target.Common.Int.{ℤ}
use rotation_target.Common.Text.{Text}
use rotation_target.Program.{Program}
use rotation_target.ProgramText.{program_json}
use rotation_target.Disk.{Disk, IsDisk, AllClose, make_dirs}
use rotation_target.Disk.Paths.{make_dirs-content}
use rotation_target.Json.{JsonLib}
use rotation_target.Library.{commit, write_program, path_for, upload_dir, staging_for}
use rotation_target.Library.Paths.{path_for-injective, staging_apart}

module _ (J : JsonLib) (D : Disk) (W : IsDisk D) where
  -- Whether it ends well or not, other files stay.
  commit-other :
      (fs : D.Files) (n : ℕ) (t staging path q : Text)
      → q ≢ staging
      → q ≢ path
      → D.content (commit J D fs n t staging path).0 q ≡ D.content fs q
  unfolding commit
  commit-other fs n t staging path q ns np = elim (Bool-cases (n == length t)) [
    | inr e ↦ rw e (W.unlink-other fs staging q ns)
    | inl e ↦ elim (Bool-cases (D.rename fs staging path).1) [
      | inl moved ↦ rw e (rw moved (W.rename-other fs staging path q ns np))
      | inr moved ↦ rw e (
          rw moved (
            W.unlink-other (D.rename fs staging path).0 staging q ns
            ∙ W.rename-other fs staging path q ns np))
    ]
  ]

  commit-failed :
      (fs : D.Files) (n : ℕ) (t staging path q : Text)
      → q ≢ staging
      → (commit J D fs n t staging path).1 ≡ false
      → D.content (commit J D fs n t staging path).0 q ≡ D.content fs q
  unfolding commit
  commit-failed fs n t staging path q ns = elim (Bool-cases (n == length t)) [
    | inr e ↦ rw e (λ h. W.unlink-other fs staging q ns)
    | inl e ↦ elim (Bool-cases (D.rename fs staging path).1) [
      | inl moved ↦ rw e (rw moved (λ h. ground (arith, h)))
      | inr moved ↦ rw e (
          rw moved (λ h.
            W.unlink-other (D.rename fs staging path).0 staging q ns
            ∙ W.rename-failed fs staging path q moved))
    ]
  ]

  commit-done :
      (fs : D.Files) (n : ℕ) (t staging path : Text)
      → (commit J D fs n t staging path).1 ≡ true
      → (n ≡ length t) × (D.content (commit J D fs n t staging path).0 path ≡ D.content fs staging)
  unfolding commit
  commit-done fs n t staging path = elim (Bool-cases (n == length t)) [
    | inr e ↦ rw e (λ h. ground (arith, h))
    | inl e ↦ elim (Bool-cases (D.rename fs staging path).1) [
      | inl moved ↦
          rw e (rw moved (λ h. ((==_iff n (length t)).0 e, W.rename-moved fs staging path moved)))
      | inr moved ↦ rw e (rw moved (λ h. ground (arith, h)))
    ]
  ]

  abbrev made : D.Files → D.Files
  made fs = (make_dirs D fs upload_dir).0

  -- The other programs' files stay.
  pub write_program-other :
      (fs : D.Files) (id k : ℤ) (p : Program)
      → k ≢ id
      → D.content (write_program J D fs id p).0 (path_for upload_dir k)
        ≡ D.content fs (path_for upload_dir k)
  unfolding write_program
  write_program-other fs id k p apart =
      let q = path_for upload_dir k in
      let path = path_for upload_dir id in
      let t = program_json p in
      let staging = staging_for J D id in
      let other : q ≢ path = λ h. apart (path_for-injective k id h) in
      elim (Option-cases (D.create (made fs) staging t)) [
        | inl e ↦ rw (e, write_program) (make_dirs-content D W fs upload_dir q)
        | inr ((fs2, n, closed), e) ↦
            rw (e, write_program)
              (commit-other fs2 n t staging path q (staging_apart k id) other
                ∙ W.create-other (made fs) fs2 staging t q n closed e (staging_apart k id)
                ∙ make_dirs-content D W fs upload_dir q)
      ]

  -- A write that fails leaves every program's file.
  pub write_program-failed :
      (fs : D.Files) (id k : ℤ) (p : Program)
      → (write_program J D fs id p).1 ≡ false
      → D.content (write_program J D fs id p).0 (path_for upload_dir k)
        ≡ D.content fs (path_for upload_dir k)
  unfolding write_program
  write_program-failed fs id k p =
      let q = path_for upload_dir k in
      let path = path_for upload_dir id in
      let t = program_json p in
      let staging = staging_for J D id in
      elim (Option-cases (D.create (made fs) staging t)) [
        | inl e ↦ rw (e, write_program) (λ h. make_dirs-content D W fs upload_dir q)
        | inr ((fs2, n, closed), e) ↦
            rw (e, write_program)
              (λ h.
                commit-failed fs2 n t staging path q (staging_apart k id) h
                ∙ W.create-other (made fs) fs2 staging t q n closed e (staging_apart k id)
                ∙ make_dirs-content D W fs upload_dir q)
      ]

  -- A write that ends well, its file closed, leaves the program's text in its file.
  pub write_program-done :
      (fs : D.Files) (id : ℤ) (p : Program)
      → AllClose D
      → (write_program J D fs id p).1 ≡ true
      → D.content (write_program J D fs id p).0 (path_for upload_dir id) ≡ some (program_json p)
  unfolding write_program
  write_program-done fs id p closes =
      let path = path_for upload_dir id in
      let t = program_json p in
      let staging = staging_for J D id in
      elim (Option-cases (D.create (made fs) staging t)) [
        | inl e ↦ rw (e, write_program) (λ h. ground (arith, h))
        | inr ((fs2, n, closed), e) ↦
            rw (e, write_program)
              (λ h.
                let done = commit-done fs2 n t staging path h in
                done.1
                ∙ W.create-whole (made fs) fs2 staging t (
                    e
                    ∙ ap (λ m. some (fs2, m, closed)) done.0
                    ∙ ap (λ c. some (fs2, length t, c))
                        (closes (made fs) fs2 staging t n closed e)))
      ]
