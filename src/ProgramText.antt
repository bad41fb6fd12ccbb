-- ===== src/ProgramText.antt =====
-- firmware/lib/rt_logic/program.h: the JSON text of a program, written out piece by piece.
pub mod Docs
use rotation_target.Common.{
  ℕ, zero, suc, ◌+◌, Bool, true, false, not, ◌&&◌, ◌||◌, List, [], ◌∷◌, ◌++◌, is_empty, ltb,
  if◌then◌else◌,
}
use rotation_target.Common.Int.{ℤ, pos, eqb_ℤ}
use rotation_target.Common.Text.{Text, codes, decimal, decimal_ℕ}
use rotation_target.Bank.{max_target_banks, nonzero}
use rotation_target.Program.{
  Command, leave, show, hide, Event, Series, Program, named_banks, banks_required,
}
use rotation_target.Json.{json_quote, sep}

-- bank_letter
unfoldable pub bank_letter : ℕ → ℕ
bank_letter index = if ltb index max_target_banks then b'A' + index else b'?'

abbrev pub flag : Bool → Text
flag b = if b then codes "true" else codes "false"

-- program_summary_json
unfoldable pub program_summary_json : Program → Text
program_summary_json p =
    codes "{\"id\":"
    ++ (decimal p.id
        ++ (codes ",\"title\":"
            ++ (json_quote p.title
                ++ (codes ",\"description\":"
                    ++ (json_quote p.description
                        ++ (codes ",\"banksRequired\":"
                            ++ (decimal_ℕ (banks_required p)
                                ++ (codes ",\"readonly\":" ++ (flag p.readonly ++ codes "}")))))))))

-- The name of a command.
abbrev pub command_text : Command → Text
command_text leave = []
command_text show = codes "show"
command_text hide = codes "hide"

unfoldable pub command_json : Command → Text
command_json leave = []
command_json c = codes ",\"command\":" ++ json_quote (command_text c)

-- The loop of event_json over `n` banks from bank `i` on.
unfoldable pub bank_entries : ℕ → ℕ → Bool → Event → Text
bank_entries zero i first e = []
bank_entries (suc n) i first e =
    let skip = not (e.show_banks i) && not (e.hide_banks i) in
    let rest = bank_entries n (suc i) (first && skip) e in
    if skip
    then rest
    else sep first
      ++ (34
          ∷ bank_letter i
          ∷ ((if e.show_banks i then codes "\":\"show\"" else codes "\":\"hide\"") ++ rest))

unfoldable pub banks_json : Event → Text
banks_json e =
    if nonzero (named_banks e)
    then codes ",\"banks\":{" ++ (bank_entries max_target_banks 0 true e ++ codes "}")
    else []

unfoldable pub int_items : Bool → List ℤ → Text
int_items first [] = []
int_items first (n ∷ ns) = sep first ++ (decimal n ++ int_items false ns)

unfoldable pub audio_json : List ℤ → Text
audio_json ids =
    if is_empty ids then [] else codes ",\"audio_ids\":[" ++ (int_items true ids ++ codes "]")

-- event_json
unfoldable pub event_json : Event → Text
event_json e =
    codes "{\"duration\":"
    ++ (decimal e.duration_ms
        ++ (command_json e.command ++ (banks_json e ++ (audio_json e.audio_ids ++ codes "}"))))

unfoldable pub event_items : Bool → List Event → Text
event_items first [] = []
event_items first (e ∷ es) = sep first ++ (event_json e ++ event_items false es)

unfoldable pub timer_json : ℤ → Text
timer_json n = if eqb_ℤ n (pos 0) then [] else codes ",\"timer_start_index\":" ++ decimal n

-- series_json
unfoldable pub series_json : Series → Text
series_json s =
    codes "{\"name\":"
    ++ (json_quote s.name
        ++ (codes ",\"optional\":"
            ++ (flag s.optional
                ++ (timer_json s.timer_start_index
                    ++ (codes ",\"events\":[" ++ (event_items true s.events ++ codes "]}"))))))

unfoldable pub series_items : Bool → List Series → Text
series_items first [] = []
series_items first (s ∷ ss) = sep first ++ (series_json s ++ series_items false ss)

-- program_json
unfoldable pub program_json : Program → Text
program_json p =
    codes "{\"id\":"
    ++ (decimal p.id
        ++ (codes ",\"title\":"
            ++ (json_quote p.title
                ++ (codes ",\"description\":"
                    ++ (json_quote p.description
                        ++ (codes ",\"readonly\":"
                            ++ (flag p.readonly
                                ++ (codes ",\"series\":["
                                    ++ (series_items true p.series ++ codes "]}")))))))))
