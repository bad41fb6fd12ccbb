-- ===== src/UriPath.antt =====
-- firmware/lib/rt_logic/uri_path.h: the identifier in a route's path, and the paths that are pages of the web
-- application. The URI is given: the code's null pointer is refused before anything else.
pub mod Segments
mod Tests
use rotation_target.Common.{
  ℕ, zero, suc, ◌+◌, ◌-◌, Bool, true, false, not, ◌&&◌, ◌||◌, Option, none, some, List, [], ◌∷◌,
  ◌++◌, length, take, drop, is_empty, ltb, leb, ◌==◌, if◌then◌else◌,
}
use rotation_target.Common.Int.{ℤ}
use rotation_target.Common.Text.{Text, codes, text_eq}
use rotation_target.ProgramParser.{id_from}

-- path.resize(path.find('?'))
unfoldable pub before_query : Text → Text
before_query [] = []
before_query (c ∷ cs) = let rest = before_query cs in if c == b'?' then [] else c ∷ rest

-- path_id; its loop over the digits is that of parse_program_filename
unfoldable pub path_id : Text → Text → Text → Option ℤ
path_id uri prefix suffix =
    let path = before_query uri in
    let digits = take (length path - length prefix - length suffix) (drop (length prefix) path) in
    if leb (length path) (length prefix + length suffix)
    then none
    else if not (text_eq (take (length prefix) path) prefix)
    then none
    else if ltb 0 (length suffix) && not (text_eq (drop (length path - length suffix) path) suffix)
    then none
    else id_from 0 digits

-- detail::has_prefix_segment
unfoldable pub has_prefix_segment : Text → Text → Bool
has_prefix_segment path [] = is_empty path || text_eq (take 1 path) (b'/' ∷ [])
has_prefix_segment [] (p ∷ prefix) = false
has_prefix_segment (c ∷ path) (p ∷ prefix) = c == p && has_prefix_segment path prefix

-- path.find("..") != npos
unfoldable pub has_dots : Text → Bool
has_dots [] = false
has_dots (c ∷ cs) = (c == b'.' && text_eq (take 1 cs) (b'.' ∷ [])) || has_dots cs

-- path.find('.', path.find_last_of('/') + 1) != npos, with the answer for the segment so far
unfoldable pub dot_in_last : Bool → Text → Bool
dot_in_last seen [] = seen
dot_in_last seen (c ∷ cs) = dot_in_last (if c == b'/' then false else seen || c == b'.') cs

-- spa_fallback_eligible
unfoldable pub spa_fallback_eligible : Text → Bool
spa_fallback_eligible uri =
    let path = before_query uri in
    if not (text_eq (take 1 path) (b'/' ∷ []))
    then false
    else if has_dots path
    then false
    else if has_prefix_segment path (codes "/api")
    then false
    else if has_prefix_segment path (codes "/sse")
    then false
    else not (dot_in_last false path)
