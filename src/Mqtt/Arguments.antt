-- ===== src/Mqtt/Arguments.antt =====
-- mqtt/AnuDBMqttClient.cpp: the arguments of main().
pub mod Options
use anu_db.Base.{
  Bool, true, false, List, [], ◌∷◌, Option, none, some, Bytes, codes, if◌then◌else◌, ◌==◌, bytes_eq,
}

-- The local variables that the loop fills.
pub record Settings : Type 0 where
  pub broker_url : Bytes
  pub database_name : Bytes
  pub username : Bytes
  pub password : Bytes
  pub cacert : Bytes
  pub cert : Bytes
  pub key : Bytes
  pub pass : Bytes
  pub tls_enabled : Bool

abbrev pub no_settings : Settings
no_settings = record {
  broker_url = [];
  database_name = [];
  username = [];
  password = [];
  cacert = [];
  cert = [];
  key = [];
  pass = [];
  tls_enabled = false;
}

-- An option with its value; `none` is an unknown option.
unfoldable pub set_option : Bytes → Bytes → Settings → Option Settings
set_option arg value s =
    if arg == codes "--broker_url"
    then some (record s { broker_url = value })
    else if arg == codes "--database_name"
    then some (record s { database_name = value })
    else if arg == codes "--username"
    then some (record s { username = value })
    else if arg == codes "--password"
    then some (record s { password = value })
    else if arg == codes "--tls_cacert"
    then some (record s { cacert = value; tls_enabled = true })
    else if arg == codes "--tls_cert"
    then some (record s { cert = value; tls_enabled = true })
    else if arg == codes "--tls_key"
    then some (record s { key = value; tls_enabled = true })
    else if arg == codes "--tls_pass"
    then some (record s { pass = value; tls_enabled = true })
    else none

-- The loop over argv[1], argv[2], ...; an option that stands last has no value and is unknown.
unfoldable pub parse_options : List Bytes → Settings → Option Settings
parse_options [] s = some s
parse_options (arg ∷ []) s = none
parse_options (arg ∷ value ∷ args) s = elim (set_option arg value s) [
  | none ↦ none
  | some s' ↦ parse_options args s'
]

abbrev pub is_empty_text : Bytes → Bool
is_empty_text [] = true
is_empty_text (c ∷ s) = false

-- The broker and the database must be named.
complete : Settings → Option Settings
complete s =
    if is_empty_text s.broker_url
    then none
    else if is_empty_text s.database_name
    then none
    else some s

checked : Option Settings → Option Settings
unfolding complete
checked none = none
checked (some s) = complete s

-- What main() makes of its arguments; `none` where it prints the usage and returns 1.
unfoldable pub parse_arguments : List Bytes → Option Settings
unfolding checked
parse_arguments [] = none
parse_arguments (arg ∷ args) = checked (parse_options (arg ∷ args) no_settings)
