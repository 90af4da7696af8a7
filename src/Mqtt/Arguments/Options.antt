-- ===== src/Mqtt/Arguments/Options.antt =====
-- mqtt/AnuDBMqttClient.cpp: what main() makes of a list of options with values.
use anu_db.Base.{
  ◌≡◌, refl, Bool, true, false, List, [], ◌∷◌, none, some, Bytes, codes, if◌then◌else◌, ◌==◌,
  bytes_eq,
}
use anu_db.Mqtt.Arguments.{
  Settings, no_settings, set_option, parse_options, is_empty_text, complete, checked,
  parse_arguments,
}

-- The options that the usage message lists.
pub data Flag : Type 0 where
  broker_url database_name username password tls_cacert tls_cert tls_key tls_pass : Flag

unfoldable pub text_of : Flag → Bytes
text_of broker_url = codes "--broker_url"
text_of database_name = codes "--database_name"
text_of username = codes "--username"
text_of password = codes "--password"
text_of tls_cacert = codes "--tls_cacert"
text_of tls_cert = codes "--tls_cert"
text_of tls_key = codes "--tls_key"
text_of tls_pass = codes "--tls_pass"

unfoldable pub is_tls : Flag → Bool
is_tls broker_url = false
is_tls database_name = false
is_tls username = false
is_tls password = false
is_tls _ = true

unfoldable pub words : List (Flag × Bytes) → List Bytes
words [] = []
words ((f, v) ∷ l) = text_of f ∷ v ∷ words l

-- The value that stands last after an option, or the default.
unfoldable pub last_value : Bytes → List (Flag × Bytes) → Bytes → Bytes
last_value option [] d = d
last_value option ((f, v) ∷ l) d = last_value option l (if text_of f == option then v else d)

unfoldable pub some_tls : List (Flag × Bytes) → Bool → Bool
some_tls [] b = b
some_tls ((f, v) ∷ l) b = some_tls l (if is_tls f then true else b)

abbrev pub given : List (Flag × Bytes) → Settings → Settings
given l s = record {
  broker_url = last_value (codes "--broker_url") l s.broker_url;
  database_name = last_value (codes "--database_name") l s.database_name;
  username = last_value (codes "--username") l s.username;
  password = last_value (codes "--password") l s.password;
  cacert = last_value (codes "--tls_cacert") l s.cacert;
  cert = last_value (codes "--tls_cert") l s.cert;
  key = last_value (codes "--tls_key") l s.key;
  pass = last_value (codes "--tls_pass") l s.pass;
  tls_enabled = some_tls l s.tls_enabled;
}

set_option_lem :
    (f : Flag) (v : Bytes) (s : Settings)
    → set_option (text_of f) v s ≡ some (given ((f, v) ∷ []) s)
unfolding set_option text_of last_value some_tls is_tls bytes_eq
set_option_lem broker_url v s = refl
set_option_lem database_name v s = refl
set_option_lem username v s = refl
set_option_lem password v s = refl
set_option_lem tls_cacert v s = refl
set_option_lem tls_cert v s = refl
set_option_lem tls_key v s = refl
set_option_lem tls_pass v s = refl

parse_options_lem :
    (l : List (Flag × Bytes)) (s : Settings) → parse_options (words l) s ≡ some (given l s)
unfolding parse_options words last_value some_tls
parse_options_lem [] s = refl
parse_options_lem ((f, v) ∷ l) s =
    rw (parse_options, set_option_lem f v s) (parse_options_lem l (given ((f, v) ∷ []) s))

-- For arguments that are options of the usage message, each with a value, main() takes for each
-- setting the value that stands last after its option, or none, enables TLS where a TLS option is
-- given, and goes on only where the broker and the database have a value that is not empty.
pub parse_arguments_lem :
    (l : List (Flag × Bytes))
    → parse_arguments (words l) ≡ (
        if is_empty_text (last_value (codes "--broker_url") l [])
        then none
        else if is_empty_text (last_value (codes "--database_name") l [])
        then none
        else some (given l no_settings))
unfolding parse_arguments words complete checked last_value
parse_arguments_lem [] = refl
parse_arguments_lem ((f, v) ∷ l) = rw (parse_options_lem ((f, v) ∷ l) no_settings)
