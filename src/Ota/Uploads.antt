-- ===== src/Ota/Uploads.antt =====
-- firmware/lib/rt_logic/ota_upload.h: what a whole upload answers, and what an installed image forbids.
use rotation_target.Common.{
  ◌≡◌, refl, Bool, true, false, Option, none, some, List, [], ◌∷◌, ◌++◌, arith, is_some,
}
use rotation_target.Ota.{
  Refusal, Problem, Session, new, gate, begin, refuse, fail, install, respond, refused,
  ota_write_failed, running_program, restart_failed, ota_image_refused,
}

-- A call that the upload handler makes on its session.
pub data Call : Type 0 where
  call_gate : Bool → Call
  call_begin : Bool → Call
  call_refuse : Refusal → Call
  call_fail : Call
  call_install : Bool → Call

unfoldable pub after : Session → List Call → Session
after s [] = s
after s (call_gate multipart ∷ calls) = after (gate s multipart).0 calls
after s (call_begin running ∷ calls) = after (begin s running).0 calls
after s (call_refuse r ∷ calls) = after (refuse s r) calls
after s (call_fail ∷ calls) = after (fail s) calls
after s (call_install scheduled ∷ calls) = after (install s scheduled) calls

installed_stays :
    (s : Session) (calls : List Call) → s.installed ≡ true → (after s calls).installed ≡ true
unfolding after gate begin refuse fail install
installed_stays s [] h = h
installed_stays s (call_gate multipart ∷ calls) h =
    installed_stays (gate s multipart).0 calls (ground arith)
installed_stays s (call_begin running ∷ calls) h =
    installed_stays (begin s running).0 calls (ground arith)
installed_stays s (call_refuse r ∷ calls) h = installed_stays (refuse s r) calls h
installed_stays s (call_fail ∷ calls) h = installed_stays (fail s) calls h
installed_stays s (call_install scheduled ∷ calls) h =
    installed_stays (install s scheduled) calls refl

after-append :
    (s : Session) (calls later : List Call) → after s (calls ++ later) ≡ after (after s calls) later
unfolding after
after-append s [] later = refl
after-append s (call_gate multipart ∷ calls) later = after-append (gate s multipart).0 calls later
after-append s (call_begin running ∷ calls) later = after-append (begin s running).0 calls later
after-append s (call_refuse r ∷ calls) later = after-append (refuse s r) calls later
after-append s (call_fail ∷ calls) later = after-append (fail s) calls later
after-append s (call_install scheduled ∷ calls) later =
    after-append (install s scheduled) calls later

closed :
    (s : Session) (b : Bool)
    → s.installed ≡ true
    → (is_some (gate s b).1 ≡ true) × ((begin s b).1 ≡ false) × ((begin s b).0 ≡ s)
unfolding gate begin
closed s b h = ground arith

-- Once an image is installed, whatever is called before and after, the gate answers every request with
-- a problem, and a first chunk is refused and leaves the session as it is.
pub install_closes :
    (before later : List Call) (scheduled b : Bool)
    → let s = after new (before ++ call_install scheduled ∷ later) in
      (is_some (gate s b).1 ≡ true) × ((begin s b).1 ≡ false) × ((begin s b).0 ≡ s)
unfolding after install
install_closes before later scheduled b =
    rw (after-append new before (call_install scheduled ∷ later)) (
      closed (after (install (after new before) scheduled) later) b
        (installed_stays (install (after new before) scheduled) later refl))

-- What can become of an image while it is received, at most one of these.
pub data Course : Type 0 where
  -- no chunk reached the handler
  no_chunk : Course
  -- the first chunk came while a program ran, or not
  while_running : Course
  image_refused : Refusal → Course
  write_failed : Course
  image_installed : Bool → Course

abbrev pub calls_of : Course → List Call
calls_of no_chunk = []
calls_of while_running = call_begin true ∷ []
calls_of (image_refused r) = call_begin false ∷ call_refuse r ∷ []
calls_of write_failed = call_begin false ∷ call_fail ∷ []
calls_of (image_installed scheduled) = call_begin false ∷ call_install scheduled ∷ []

abbrev pub outcome : Course → Option Problem
outcome no_chunk = some (ota_image_refused Refusal.empty_image)
outcome while_running = some running_program
outcome (image_refused r) = some (refused r)
outcome write_failed = some ota_write_failed
outcome (image_installed true) = none
outcome (image_installed false) = some restart_failed

-- A multipart request before any image is installed passes the gate, and its answer is that of its
-- course, whatever earlier requests left in the session.
pub upload_answers :
    (s : Session) (course : Course)
    → s.installed ≡ false
    → ((gate s true).1 ≡ none)
      × (respond (after (gate s true).0 (calls_of course)) ≡ outcome course)
unfolding gate respond after begin refuse fail install
upload_answers s no_chunk h = ground arith
upload_answers s while_running h = ground arith
upload_answers s (image_refused r) h = ground arith
upload_answers s write_failed h = ground arith
upload_answers s (image_installed true) h = ground arith
upload_answers s (image_installed false) h = ground arith
