-- ===== src/Secret.antt =====
-- src/splunk_secret.cpp and src/include/splunk_secret.hpp: CreateSplunkSecretFromConfig,
-- ValueToBool and GetSplunkCredentials. The secret manager is a parameter.
pub mod Options
pub mod Usable
use duckdb_splunk.Prelude.{
  ℕ, Bool, true, false, not, ◌&&◌, ◌||◌, Option, none, some, List, [], ◌∷◌, Bytes, codes, equal,
  is_empty, if◌then◌else◌,
}
use duckdb_splunk.External.{
  StringUtil, Scalar, null_scalar, boolean_scalar, DuckValue, scalar, Values,
}
use duckdb_splunk.Errors.{Exception, invalid_input, Result, ok, throw, ◌>>=◌}
use duckdb_splunk.Client.Connection.{default_url}

-- `secret_map`: a value for each key.
abbrev pub SecretMap : Type 0
SecretMap = List (Bytes × DuckValue)

-- A secret of the manager; in `secret_map`, `none` stands for one that is no `KeyValueSecret`.
pub record Secret : Type 0 where
  pub scope : List Bytes
  pub type : Bytes
  pub provider : Bytes
  pub name : Bytes
  pub secret_map : Option SecretMap
  pub redact_keys : List Bytes

-- What the code asks of the secret manager: a secret by its name, and all secrets, where an entry
-- may hold none.
pub record SecretManager : Type 0 where
  pub by_name : Bytes → Option Secret
  pub all_secrets : List (Option Secret)

pub record SplunkCredentials : Type 0 where
  pub name : Bytes
  pub url : Bytes
  pub username : Bytes
  pub password : Bytes
  pub token : Bytes
  pub token_type : Bytes
  pub insecure_tls : Bool

-- `HasToken` and `HasBasicAuth`.
unfoldable pub has_token : SplunkCredentials → Bool
has_token creds = not (is_empty creds.token)

unfoldable pub has_basic_auth : SplunkCredentials → Bool
has_basic_auth creds = not (is_empty creds.username) && not (is_empty creds.password)

-- The test for the keys that are understood.
unfoldable pub is_known_option : Bytes → Bool
is_known_option name =
    equal name (codes "url")
    || (equal name (codes "username")
        || (equal name (codes "password")
            || (equal name (codes "token")
                || (equal name (codes "token_type") || equal name (codes "insecure_tls")))))

-- `secret_map[key] = value`.
unfoldable pub set_value : Bytes → DuckValue → SecretMap → SecretMap
set_value key value [] = (key, value) ∷ []
set_value key value ((k, v) ∷ m) =
    let rest = set_value key value m in if equal k key then (k, value) ∷ m else (k, v) ∷ rest

-- `TryGetValue`.
unfoldable pub try_get_value : Bytes → SecretMap → Option DuckValue
try_get_value key [] = none
try_get_value key ((k, v) ∷ m) = if equal k key then some v else try_get_value key m

module _ (su : StringUtil) where
  -- One round of the loop over the options.
  unfoldable pub copy_option : Bytes × DuckValue → SecretMap → SecretMap
  copy_option (name, value) m =
      let lower_name = su.lower name in
      if is_known_option lower_name then set_value lower_name value m else m

  unfoldable pub copy_options : List (Bytes × DuckValue) → SecretMap → SecretMap
  copy_options [] m = m
  copy_options (option ∷ options) m = copy_options options (copy_option option m)

  -- `CreateSplunkSecretFromConfig`, of the secret's scope, its name and the options.
  unfoldable pub create_splunk_secret : List Bytes → Bytes → List (Bytes × DuckValue) → Secret
  create_splunk_secret scope name options = record {
    scope = scope;
    type = codes "splunk";
    provider = codes "config";
    name = name;
    secret_map = some (copy_options options []);
    redact_keys = codes "password" ∷ codes "token" ∷ [];
  }

-- The search for the first secret of type `splunk`.
unfoldable pub first_splunk : List (Option Secret) → Option Secret
first_splunk [] = none
first_splunk (none ∷ rest) = first_splunk rest
first_splunk (some s ∷ rest) = if equal s.type (codes "splunk") then some s else first_splunk rest

unfoldable pub found_or : Option Secret → Exception → Result Secret
found_or (some s) e = ok s
found_or none e = throw e

-- The entry that the credentials are read from.
unfoldable pub select_secret : SecretManager → Bytes → Result Secret
unfolding found_or
select_secret manager secret_name =
    if not (is_empty secret_name)
    then found_or (manager.by_name secret_name) (invalid_input (codes "No secret with name"))
    else found_or (first_splunk manager.all_secrets)
        (invalid_input (codes "No 'splunk' secret found"))

-- The map of a secret that is a key-value `splunk` secret.
unfoldable pub splunk_map : Secret → Result SecretMap
splunk_map s =
    if not (equal s.type (codes "splunk"))
    then throw (invalid_input (codes "is not a 'splunk' secret"))
    else elim s.secret_map [
      | none ↦ throw (invalid_input (codes "is not a key-value 'splunk' secret"))
      | some m ↦ ok m
    ]

module _ (su : StringUtil) (values : Values) where
  -- `ValueToBool`.
  unfoldable pub value_to_bool : DuckValue → Bool
  value_to_bool (scalar (boolean_scalar b)) = b
  value_to_bool value =
      let s = su.lower (values.show value) in
      equal s (codes "true")
      || (equal s (codes "1") || (equal s (codes "yes") || equal s (codes "on")))

  -- `kv_secret->TryGetValue(key, value) && !value.IsNull()`.
  unfoldable pub get_setting : Bytes → SecretMap → Option DuckValue
  get_setting key m = elim (try_get_value key m) [
    | none ↦ none
    | some (scalar null_scalar) ↦ none
    | some value ↦ some value
  ]

  -- A setting as text, over its default.
  abbrev pub text_over : Bytes → Option DuckValue → Bytes
  text_over default none = default
  text_over default (some value) = values.show value

  -- One whose empty text counts as absent.
  abbrev pub full_text_over : Bytes → Option DuckValue → Bytes
  full_text_over default none = default
  full_text_over default (some value) =
      if is_empty (values.show value) then default else values.show value

  abbrev pub flag_over : Bool → Option DuckValue → Bool
  flag_over default none = default
  flag_over default (some value) = value_to_bool value

  -- The settings of a secret, over the defaults of `SplunkCredentials`.
  unfoldable pub read_settings : Bytes → SecretMap → SplunkCredentials
  read_settings name m = record {
    name = name;
    url = full_text_over default_url (get_setting (codes "url") m);
    username = text_over [] (get_setting (codes "username") m);
    password = text_over [] (get_setting (codes "password") m);
    token = text_over [] (get_setting (codes "token") m);
    token_type = full_text_over (codes "Bearer") (get_setting (codes "token_type") m);
    insecure_tls = flag_over false (get_setting (codes "insecure_tls") m);
  }

  -- The checks behind the settings.
  unfoldable pub check_credentials : SplunkCredentials → Result SplunkCredentials
  check_credentials creds =
      if not (has_token creds) && not (has_basic_auth creds)
      then throw (
          invalid_input (codes "splunk secret must provide either TOKEN, or USERNAME and PASSWORD"))
      else if not (su.ci_equals creds.token_type (codes "Bearer"))
          && not (su.ci_equals creds.token_type (codes "Splunk"))
      then throw (invalid_input (codes "splunk secret TOKEN_TYPE must be 'Bearer' or 'Splunk'"))
      else ok creds

  -- `GetSplunkCredentials`.
  unfoldable pub get_splunk_credentials : SecretManager → Bytes → Result SplunkCredentials
  get_splunk_credentials manager secret_name = select_secret manager secret_name >>= λ s.
      splunk_map s >>= λ m. check_credentials (read_settings s.name m)
