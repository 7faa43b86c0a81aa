-- ===== src/Client/Connection.antt =====
-- SplunkClient's configuration, NormalizeUrl, CopyConfigTo, GetConnection and the headers of the
-- browser build.
pub mod Headers
use duckdb_splunk.Prelude.{
  ℕ, Bool, true, false, not, Option, none, some, [], ◌++◌, ◌∷◌, Bytes, codes, is_empty, drop_back,
  if◌then◌else◌,
}
use duckdb_splunk.External.{StringUtil}

-- The configuration in `SplunkClient`; the defaults are those of the header.
pub record SplunkClient : Type 0 where
  pub url : Bytes
  pub username : Bytes
  pub password : Bytes
  pub token : Bytes
  pub token_type : Bytes
  pub insecure_tls : Bool
  pub timeout_seconds : ℕ
  pub retries : ℕ

abbrev pub default_url : Bytes
default_url = codes "https://localhost:8089"

abbrev pub default_client : SplunkClient
default_client = record {
  url = default_url;
  username = [];
  password = [];
  token = [];
  token_type = codes "Bearer";
  insecure_tls = false;
  timeout_seconds = 60;
  retries = 4;
}

-- How a connection of the HTTP library authenticates.
pub data Authentication : Type 0 where
  anonymous : Authentication
  -- `set_default_headers({{"Authorization", value}})`.
  authorization_header : Bytes → Authentication
  -- `set_bearer_token_auth(token)`.
  bearer_token : Bytes → Authentication
  -- `set_basic_auth(username, password)`.
  basic_auth : Bytes → Bytes → Authentication

-- What `GetConnection` sets up.
pub record Connection : Type 0 where
  pub base_url : Bytes
  pub connection_timeout : ℕ
  pub read_timeout : ℕ
  pub keep_alive : Bool
  pub authentication : Authentication
  pub verify_certificate : Bool
  pub verify_hostname : Bool

-- `CopyConfigTo`: every field of the target is overwritten.
unfoldable pub copy_config_to : SplunkClient → SplunkClient → SplunkClient
copy_config_to client target = record target {
  url = client.url;
  username = client.username;
  password = client.password;
  token = client.token;
  token_type = client.token_type;
  insecure_tls = client.insecure_tls;
  timeout_seconds = client.timeout_seconds;
  retries = client.retries;
}

module _ (su : StringUtil) where
  -- `NormalizeUrl`.
  unfoldable pub normalize_url : Bytes → Bytes
  normalize_url raw =
      let result = drop_back b'/' (su.trim raw) in if is_empty result then default_url else result

  -- The choice of the authentication in `GetConnection`.
  unfoldable pub authenticate : SplunkClient → Authentication
  authenticate client =
      if not (is_empty client.token)
      then (if su.ci_equals client.token_type (codes "Splunk")
          then authorization_header (codes "Splunk " ++ client.token)
          else bearer_token client.token)
      else if not (is_empty client.username)
      then basic_auth client.username client.password
      else anonymous

  open_connection : SplunkClient → Connection
  unfolding authenticate normalize_url
  open_connection client = record {
    base_url = normalize_url client.url;
    connection_timeout = client.timeout_seconds;
    read_timeout = client.timeout_seconds;
    keep_alive = true;
    authentication = authenticate client;
    verify_certificate = not client.insecure_tls;
    verify_hostname = not client.insecure_tls;
  }

  -- `GetConnection`: the cached connection, or a new one, which is then cached.
  unfoldable pub get_connection : SplunkClient → Option Connection → Connection
  unfolding open_connection
  get_connection client (some connection) = connection
  get_connection client none = open_connection client

  -- `AddBrowserAuthHeaders`: the value of the `Authorization` header, if it is set.
  -- `to_base64` is DuckDB's `Blob::ToBase64`.
  unfoldable pub browser_auth_header : (Bytes → Bytes) → SplunkClient → Option Bytes
  browser_auth_header to_base64 client =
      if not (is_empty client.token)
      then some (
          (if su.ci_equals client.token_type (codes "Splunk")
            then codes "Splunk "
            else codes "Bearer ")
          ++ client.token)
      else if not (is_empty client.username)
      then some (codes "Basic " ++ to_base64 (client.username ++ (codes ":" ++ client.password)))
      else none
