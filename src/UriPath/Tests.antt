-- ===== src/UriPath/Tests.antt =====
-- Paths that carry an identifier, and that do not.
use rotation_target.Common.{◌≡◌, ◌↔◌, refl, true, false, none, some}
use rotation_target.Common.Int.{pos}
use rotation_target.Common.Text.{Text, codes, text_eq}
use rotation_target.ProgramParser.{id_from}
use rotation_target.UriPath.{
  path_id, before_query, spa_fallback_eligible, has_dots, has_prefix_segment, dot_in_last,
}
use rotation_target.UriPath.Segments.{IsPath, path_id_lem}

abbrev uri : Text
uri = codes "/api/v2/programs/12/load?now"

abbrev prefix : Text
prefix = codes "/api/v2/programs/"

path_id_lem_example :
    path_id uri prefix (codes "/load") ≡ some (pos 12)
    ↔ IsPath (before_query uri) prefix (codes "/load") (pos 12)
path_id_lem_example = path_id_lem uri prefix (codes "/load") (pos 12)

reads_id : path_id uri prefix (codes "/load") ≡ some (pos 12)
unfolding path_id before_query text_eq id_from
reads_id = refl

no_digits : path_id (codes "/api/v2/programs//load") prefix (codes "/load") ≡ none
unfolding path_id before_query text_eq id_from
no_digits = refl

page : spa_fallback_eligible (codes "/run?x=1.5") ≡ true
unfolding spa_fallback_eligible before_query text_eq has_dots has_prefix_segment dot_in_last
page = refl

no_page : spa_fallback_eligible (codes "/api/v2/none") ≡ false
unfolding spa_fallback_eligible before_query text_eq has_dots has_prefix_segment dot_in_last
no_page = refl
