-- ===== src/ProgramParser.antt =====
-- firmware/lib/rt_logic/program.cpp: reading a program document and the name of a program's file. The
-- document's accessors are ArduinoJson's, a parameter; `src[key] | value` is the value where the
-- accessor answers none.
pub mod Events
pub mod Lookups
pub mod Nesting
pub mod EventReads
pub mod RoundTrip
pub mod FileNames
mod Tests
use rotation_target.Common.{
  ℕ, zero, suc, ◌+◌, ◌-◌, ◌*◌, Bool, true, false, not, ◌&&◌, ◌||◌, Option, none, some, List, [],
  ◌∷◌, ◌++◌, length, take, drop, is_empty, ltb, leb, ◌==◌, if◌then◌else◌,
}
use rotation_target.Common.Int.{ℤ, pos, negsuc, ltb_ℤ, leb_ℤ, eqb_ℤ}
use rotation_target.Common.Text.{Text, codes, text_eq, is_digit}
use rotation_target.Bank.{Mask, mask_or, bank_bit, no_banks, max_target_banks}
use rotation_target.Program.{Command, leave, show, hide, Event, Series, Program}
use rotation_target.Program.Bounds.{min_event_ms, max_event_ms}
use rotation_target.Json.{JsonLib}

infixl 1 ◌>>=◌
abbrev pub ◌>>=◌ : {A B : Type 0} → Option A → (A → Option B) → Option B
none >>= f = none
some a >>= f = f a

-- `v | fallback`
abbrev pub or_else : {A : Type 0} → Option A → A → A
or_else none fallback = fallback
or_else (some a) fallback = a

-- The bank of a key: one letter, A to H.
unfoldable pub bank_of : Text → Option ℕ
bank_of [] = none
bank_of (c ∷ []) = if leb b'A' c && leb c b'H' then some (c - b'A') else none
bank_of (c ∷ d ∷ cs) = none

-- The clamp of an event's duration.
unfoldable pub clamp_duration : ℤ → ℤ
clamp_duration duration =
    if ltb_ℤ duration min_event_ms
    then min_event_ms
    else if ltb_ℤ max_event_ms duration
    then max_event_ms
    else duration

-- Whether the index is refused: outside the events, and not 0 of an empty series.
unfoldable pub bad_anchor : ℤ → List Event → Bool
bad_anchor (negsuc n) events = true
bad_anchor (pos n) events = leb (length events) n && not (n == 0 && is_empty events)

module _ (J : JsonLib) where
  -- parse_command
  unfoldable pub parse_command : J.Value → Option Command
  parse_command v = if J.is_null v then some leave else elim (J.as_str v) [
    | none ↦ none
    | some t ↦
        if is_empty t
        then some leave
        else if text_eq t (codes "show")
        then some show
        else if text_eq t (codes "hide")
        then some hide
        else none
  ]

  -- One turn of the loop of parse_banks, on the masks to show and to hide.
  unfoldable pub bank_entry : Mask × Mask → Text → J.Value → Option (Mask × Mask)
  bank_entry (shows, hides) key v = elim (bank_of key) [
    | none ↦ none
    | some i ↦ elim (J.as_str v) [
      | none ↦ none
      | some what ↦
          if text_eq what (codes "show")
          then some (mask_or shows (bank_bit i), hides)
          else if text_eq what (codes "hide")
          then some (shows, mask_or hides (bank_bit i))
          else none
    ]
  ]

  unfoldable pub banks_from : Mask × Mask → List (Text × J.Value) → Option (Mask × Mask)
  banks_from masks [] = some masks
  banks_from masks ((key, v) ∷ entries) =
      bank_entry masks key v >>= λ masks'. banks_from masks' entries

  -- parse_banks
  unfoldable pub parse_banks : J.Value → Option (Mask × Mask)
  parse_banks v =
      if J.is_null v
      then some (no_banks, no_banks)
      else if not (J.is_object v)
      then none
      else banks_from (no_banks, no_banks) (J.entries v)

  -- The loop of parse_event over the audio identifiers.
  unfoldable pub ids_from : List J.Value → List ℤ
  ids_from [] = []
  ids_from (v ∷ vs) =
      let rest = ids_from vs in elim (J.as_int32 v) [ none ↦ rest | some id ↦ id ∷ rest ]

  -- parse_event
  unfoldable pub parse_event : J.Value → Option Event
  parse_event src = do
    command ← parse_command (J.get src (codes "command"))
    (shows, hides) ← parse_banks (J.get src (codes "banks"))
    some (record {
      duration_ms = clamp_duration (or_else (J.as_int64 (J.get src (codes "duration"))) (pos 0));
      command = command;
      audio_ids = ids_from (J.elements (J.get src (codes "audio_ids")));
      show_banks = shows;
      hide_banks = hides;
    })

  unfoldable pub events_from : List J.Value → Option (List Event)
  events_from [] = some []
  events_from (v ∷ vs) = do e ← parse_event v; es ← events_from vs; some (e ∷ es)

  -- The end of parse_series, with the events and the index.
  unfoldable pub series_with : J.Value → List Event → ℤ → Option Series
  series_with src events timer_start_index =
      if bad_anchor timer_start_index events
      then none
      else some (record {
        name = or_else (J.as_str (J.get src (codes "name"))) [];
        optional = or_else (J.as_bool (J.get src (codes "optional"))) false;
        events = events;
        timer_start_index = timer_start_index;
      })

  -- parse_series
  unfoldable pub parse_series : J.Value → Option Series
  parse_series src = do
    events ← events_from (J.elements (J.get src (codes "events")))
    series_with src events (or_else (J.as_int32 (J.get src (codes "timer_start_index"))) (pos 0))

  unfoldable pub series_from : List J.Value → Option (List Series)
  series_from [] = some []
  series_from (v ∷ vs) = do s ← parse_series v; ss ← series_from vs; some (s ∷ ss)

  -- The part of parse_program behind the deserializer: the program, and whether an id was given.
  unfoldable pub program_from : J.Value → Bool → Option (Program × Bool)
  program_from root readonly = if not (J.is_object root) then none else do
    series ← series_from (J.elements (J.get root (codes "series")))
    some (
      record {
        id = or_else (J.as_int32 (J.get root (codes "id"))) (pos 0);
        title = or_else (J.as_str (J.get root (codes "title"))) [];
        description = or_else (J.as_str (J.get root (codes "description"))) [];
        readonly = readonly;
        series = series;
      },
      not (J.is_null (J.get root (codes "id"))),
    )

  -- parse_program
  unfoldable pub parse_program : Text → Bool → Option (Program × Bool)
  parse_program json readonly = J.deserialize json >>= λ root. program_from root readonly

-- The loop of parse_program_filename, over the bytes before the extension.
unfoldable pub id_from : ℕ → Text → Option ℤ
id_from value [] = some (pos value)
id_from value (c ∷ cs) =
    let next = value * 10 + (c - b'0') in
    let rest = id_from next cs in
    if not (is_digit c) then none else if ltb 2147483647 next then none else rest

-- parse_program_filename
unfoldable pub parse_program_filename : Text → Option ℤ
parse_program_filename name =
    let stem = length name - 5 in
    if leb (length name) 5 || not (text_eq (drop stem name) (codes ".json"))
    then none
    else id_from 0 (take stem name)
