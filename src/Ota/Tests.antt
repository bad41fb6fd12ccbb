-- ===== src/Ota/Tests.antt =====
-- Uploads at concrete calls.
use rotation_target.Common.{◌≡◌, refl, true, false, none, some, [], ◌∷◌, ◌++◌, is_some}
use rotation_target.Ota.{Refusal, new, gate, begin, respond, check_image, compare_names, same_name}
use rotation_target.Ota.Uploads.{
  call_gate, call_install, after, calls_of, outcome, install_closes, upload_answers, image_refused,
}

same_project : check_image (some (1 ∷ [])) (some (1 ∷ [])) 300 ≡ Refusal.nothing
unfolding check_image compare_names same_name
same_project = refl

other_project : check_image (some (1 ∷ [])) (some (1 ∷ 2 ∷ [])) 300 ≡ Refusal.project_mismatch
unfolding check_image compare_names same_name
other_project = refl

install_closes_example :
    let s = after new ((call_gate true ∷ []) ++ call_install false ∷ call_gate false ∷ []) in
    (is_some (gate s true).1 ≡ true) × ((begin s true).1 ≡ false) × ((begin s true).0 ≡ s)
install_closes_example = install_closes (call_gate true ∷ []) (call_gate false ∷ []) false true

upload_answers_example :
    ((gate new true).1 ≡ none)
    × (respond (after (gate new true).0 (calls_of (image_refused Refusal.invalid_image)))
        ≡ outcome (image_refused Refusal.invalid_image))
upload_answers_example = upload_answers new (image_refused Refusal.invalid_image) refl
