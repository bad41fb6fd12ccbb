-- ===== src/Ota.antt =====
-- firmware/lib/rt_logic/ota_policy.h and ota_upload.h: whether a firmware image may be taken, and what
-- an upload answers. The sentences of an answer are left out: a problem stands for its type, and for
-- kOtaImageRefused with the refusal whose message it carries.
pub mod Uploads
mod Tests
use rotation_target.Common.{
  ℕ, zero, suc, Bool, true, false, not, ◌&&◌, Option, none, some, List, [], ◌∷◌, leb, ◌==◌, is_some,
  if◌then◌else◌,
}

pub data Refusal : Type 0 where
  nothing program_running project_mismatch empty_image invalid_image : Refusal

-- The problem types that ota_upload.h answers with.
pub data Problem : Type 0 where
  upload_missing_file ota_write_failed running_program restart_pending restart_failed : Problem
  ota_image_refused : Refusal → Problem

-- none is the 200.
abbrev pub Answer : Type 0
Answer = Option Problem

-- check_start
abbrev pub check_start : Bool → Refusal
check_start running = if running then Refusal.program_running else Refusal.nothing

-- A char array of 32 bytes, as the bytes before the terminator or all of them.
abbrev pub Name : Type 0
Name = List ℕ

-- strncmp(a, b, n) == 0, on bytes that are not 0.
pub same_name : ℕ → Name → Name → Bool
same_name zero xs ys = true
same_name (suc n) [] [] = true
same_name (suc n) [] (y ∷ ys) = false
same_name (suc n) (x ∷ xs) [] = false
same_name (suc n) (x ∷ xs) (y ∷ ys) = (x == y) && same_name n xs ys

-- The part of check_image after the size; a null pointer is none.
compare_names : Option Name → Option Name → Refusal
compare_names none running = Refusal.project_mismatch
compare_names (some image) none = Refusal.project_mismatch
compare_names (some image) (some running) =
    if same_name 32 image running then Refusal.nothing else Refusal.project_mismatch

-- check_image
unfoldable pub check_image : Option Name → Option Name → ℕ → Refusal
unfolding compare_names
check_image image_project running_project bytes_written =
    if leb bytes_written 256
    then Refusal.empty_image
    else compare_names image_project running_project

pub record Session : Type 0 where
  pub refusal : Refusal
  pub failed : Bool
  pub restarting : Bool
  pub installed : Bool
  pub restart_scheduled : Bool

abbrev pub new : Session
new = record {
  refusal = Refusal.nothing;
  failed = false;
  restarting = false;
  installed = false;
  restart_scheduled = false;
}

-- UploadSession::already_installed
abbrev pub already_installed : Session → Problem
already_installed s = if s.restart_scheduled then restart_pending else restart_failed

-- UploadSession::gate
unfoldable pub gate : Session → Bool → Session × Option Problem
gate s0 multipart =
    let s : Session = record s0 { restarting = false; failed = false; refusal = Refusal.nothing } in
    if s.installed
    then (s, some (already_installed s))
    else if not multipart
    then (s, some upload_missing_file)
    else (s, none)

abbrev pub is_none : Refusal → Bool
is_none Refusal.nothing = true
is_none _ = false

-- UploadSession::begin
unfoldable pub begin : Session → Bool → Session × Bool
begin s running =
    if s.installed
    then (s, false)
    else (record s { refusal = check_start running }, is_none (check_start running))

-- UploadSession::refuse
unfoldable pub refuse : Session → Refusal → Session
refuse s refusal = record s { refusal = refusal }

-- UploadSession::fail
unfoldable pub fail : Session → Session
fail s = record s { failed = true }

-- UploadSession::install
unfoldable pub install : Session → Bool → Session
install s scheduled = record s {
  installed = true;
  restart_scheduled = scheduled;
  restarting = scheduled;
}

-- UploadSession::restart_pending
unfoldable pub is_restart_pending : Session → Bool
is_restart_pending s = s.installed && s.restart_scheduled

-- The answer for a recorded refusal: nothing recorded means that nothing arrived.
abbrev pub refused : Refusal → Problem
refused Refusal.nothing = ota_image_refused Refusal.empty_image
refused Refusal.program_running = running_program
refused r = ota_image_refused r

-- UploadSession::respond
unfoldable pub respond : Session → Answer
respond s =
    if s.restarting
    then none
    else if s.installed
    then some (already_installed s)
    else if s.failed && is_none s.refusal
    then some ota_write_failed
    else some (refused s.refusal)
