-- ===== src/ProgramParser/Nesting.antt =====
-- firmware/lib/rt_logic/program.h: the documents nest no deeper than ArduinoJson reads.
use rotation_target.Common.{ℕ, zero, suc, ◌≡◌, refl, true, List, [], ◌∷◌, arith}
use rotation_target.Common.Int.{ℤ}
use rotation_target.Common.Text.{text_eq}
use rotation_target.Program.{Event, Series, Program}
use rotation_target.Json.{distinct_keys, has_key, fits, fits_items, fits_fields}
use rotation_target.ProgramText.Docs.{
  with_command, bank_fields, with_banks, ints, with_audio, with_timer, event_doc, events_items,
  series_doc, all_series, program_doc,
}
use rotation_target.ProgramParser.Events.{distinct-bank_fields}
use rotation_target.ProgramParser.Lookups.{distinct-event_fields, distinct-series_fields}

fits-bank_fields : (n k i : ℕ) (e : Event) → fits_fields n (bank_fields k i e) ≡ true
unfolding fits bank_fields
fits-bank_fields n zero i e = refl
fits-bank_fields n (suc k) i e = ground (arith, fits-bank_fields n k (suc i) e)

fits-ints : (n : ℕ) (ids : List ℤ) → fits_items n (ints ids) ≡ true
unfolding fits ints
fits-ints n [] = refl
fits-ints n (id ∷ ids) = fits-ints n ids

fits-event_doc : (n : ℕ) (e : Event) → fits (suc (suc n)) (event_doc e) ≡ true
unfolding fits event_doc with_command with_banks with_audio
fits-event_doc n e = ground (
  arith,
  distinct-event_fields e,
  distinct-bank_fields 8 0 e (omega arith),
  fits-bank_fields n 8 0 e,
  fits-ints n e.audio_ids,
)

fits-events_items : (n : ℕ) (es : List Event) → fits_items (suc (suc n)) (events_items es) ≡ true
unfolding fits events_items
fits-events_items n [] = refl
fits-events_items n (e ∷ es) = ground (arith, fits-event_doc n e, fits-events_items n es)

fits-series_doc : (n : ℕ) (s : Series) → fits (suc (suc (suc (suc n)))) (series_doc s) ≡ true
unfolding fits series_doc with_timer
fits-series_doc n s = ground (arith, distinct-series_fields s, fits-events_items n s.events)

fits-all_series :
    (n : ℕ) (ss : List Series) → fits_items (suc (suc (suc (suc n)))) (all_series ss) ≡ true
unfolding fits all_series
fits-all_series n [] = refl
fits-all_series n (s ∷ ss) = ground (arith, fits-series_doc n s, fits-all_series n ss)

pub fits-program_doc : (p : Program) → fits 10 (program_doc p) ≡ true
unfolding fits program_doc distinct_keys has_key text_eq
fits-program_doc p = rw (fits-all_series 4 p.series) refl
