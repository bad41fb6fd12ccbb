-- ===== src/Disk/Paths.antt =====
-- firmware/main/storage/storage.cpp: making directories leaves the files.
use rotation_target.Common.{◌≡◌, refl, ◌∙◌, [], ◌∷◌, ◌++◌, ◌==◌, is_empty, Bool-cases, inl, inr}
use rotation_target.Common.Text.{Text}
use rotation_target.Disk.{Disk, IsDisk, joined, make_from, make_dirs}

module _ (D : Disk) (W : IsDisk D) where
  make_from-content :
      (fs : D.Files) (current part path q : Text)
      → D.content (make_from D fs current part path).0 q ≡ D.content fs q
  unfolding make_from
  make_from-content fs current part [] q = elim (Bool-cases (is_empty part)) [
    | inl e ↦ rw e refl
    | inr e ↦ rw e (W.mkdir-content fs (joined current part) q)
  ]
  make_from-content fs current part (c ∷ cs) q = elim (Bool-cases (c == b'/')) [
    | inr e ↦ rw e (make_from-content fs current (part ++ c ∷ []) cs q)
    | inl e ↦ elim (Bool-cases (is_empty part)) [
      | inl n ↦ rw e (rw n (make_from-content fs current [] cs q))
      | inr n ↦
          let path = joined current part in
          elim (Bool-cases (D.mkdir fs path).1) [
            | inl ok ↦ rw e (
                rw n (
                  rw ok (
                    make_from-content (D.mkdir fs path).0 path [] cs q
                    ∙ W.mkdir-content fs path q)))
            | inr ok ↦ rw e (rw n (rw ok (W.mkdir-content fs path q)))
          ]
    ]
  ]

  pub make_dirs-content :
      (fs : D.Files) (path q : Text) → D.content (make_dirs D fs path).0 q ≡ D.content fs q
  unfolding make_dirs
  make_dirs-content fs [] q = refl
  make_dirs-content fs (c ∷ cs) q = elim (Bool-cases (c == b'/')) [
    | inl e ↦ rw e (make_from-content fs (b'/' ∷ []) [] cs q)
    | inr e ↦ rw e (make_from-content fs [] [] (c ∷ cs) q)
  ]
