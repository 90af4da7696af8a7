-- ===== src/Tests/Options.antt =====
-- The arguments of a server with a broker and a database.
use anu_db.Base.{◌≡◌, List, [], ◌∷◌, none, some, codes, Bytes, if◌then◌else◌}
use anu_db.Mqtt.Arguments.{no_settings, parse_arguments, is_empty_text}
use anu_db.Mqtt.Arguments.Options.{
  Flag, broker_url, database_name, tls_key, words, last_value, given, parse_arguments_lem,
}

abbrev options : List (Flag × Bytes)
options =
    (broker_url, codes "u")
    ∷ (database_name, codes "d")
    ∷ (tls_key, codes "k")
    ∷ (broker_url, codes "v")
    ∷ []

parse_arguments_lem_example : parse_arguments (words options) ≡ (
    if is_empty_text (last_value (codes "--broker_url") options [])
    then none
    else if is_empty_text (last_value (codes "--database_name") options [])
    then none
    else some (given options no_settings))
parse_arguments_lem_example = parse_arguments_lem options
