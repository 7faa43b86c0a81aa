-- ===== src/Client/Connection/Headers.antt =====
-- The address and the credentials that a request is sent with.
use duckdb_splunk.Prelude.{
  ◌≡◌, ◌≢◌, Option, none, some, [], ◌∷◌, ◌++◌, Bytes, codes, is_empty, if◌then◌else◌, arith,
  NotEndsIn, drop_back, drop_back-NotEndsIn,
}
use duckdb_splunk.External.{StringUtil}
use duckdb_splunk.Client.Connection.{
  SplunkClient, Authentication, anonymous, authorization_header, bearer_token, basic_auth,
  default_url, normalize_url, authenticate, get_connection, browser_auth_header,
}

-- The `Authorization` header that the HTTP library sends for its two kinds of credentials.
pub record HttpAuth : Type 0 where
  pub bearer_header : Bytes → Bytes
  pub basic_header : Bytes → Bytes → Bytes

pub record HttpAuthLaws (to_base64 : Bytes → Bytes) (h : HttpAuth) : Type 0 where
  pub bearer_header_lem : (token : Bytes) → h.bearer_header token ≡ codes "Bearer " ++ token
  pub basic_header_lem :
      (username password : Bytes)
      → h.basic_header username password
        ≡ codes "Basic " ++ to_base64 (username ++ (codes ":" ++ password))

abbrev pub sent_header : HttpAuth → Authentication → Option Bytes
sent_header h anonymous = none
sent_header h (authorization_header value) = some value
sent_header h (bearer_token token) = some (h.bearer_header token)
sent_header h (basic_auth username password) = some (h.basic_header username password)

module _ (su : StringUtil) where
  usable :
      (url : Bytes)
      → NotEndsIn b'/' url
      → (NotEndsIn b'/' (if is_empty url then default_url else url))
        × ((if is_empty url then default_url else url) ≢ [])
  usable [] h = (omega arith, λ e. cc)
  usable (c ∷ s) h = (h, λ e. cc)

  -- A normalised address does not end in a slash and is not empty.
  normalize_url-NotEndsIn :
      (raw : Bytes) → NotEndsIn b'/' (normalize_url su raw) × (normalize_url su raw ≢ [])
  unfolding normalize_url
  normalize_url-NotEndsIn raw =
      usable (drop_back b'/' (su.trim raw)) (drop_back-NotEndsIn b'/' (su.trim raw))

  -- If the HTTP library sends bearer tokens and basic credentials in their usual form, then a
  -- new native connection sends the same `Authorization` header as the browser build, or
  -- neither sends one.
  pub authorization_agrees :
      (to_base64 : Bytes → Bytes) (h : HttpAuth) (client : SplunkClient)
      → HttpAuthLaws to_base64 h
      → sent_header h (get_connection su client none).authentication
        ≡ browser_auth_header su to_base64 client
  unfolding get_connection authenticate browser_auth_header
  authorization_agrees to_base64 h client laws = ground (
    arith,
    laws.bearer_header_lem client.token,
    laws.basic_header_lem client.username client.password,
  )
