-- ===== src/Client/Browser.antt =====
-- src/splunk_client.cpp: BrowserHTTPErrorDetail, and AuthenticatedRequest and ExportSearch of the
-- browser build, which leave transport and retries to DuckDB's HTTPUtil.
pub mod Detail
pub mod Agreement
use duckdb_splunk.Prelude.{
  ℕ, ◌%◌, ◌^◌, Bool, true, false, not, ◌&&◌, ◌||◌, Option, none, some, List, [], ◌∷◌, ◌++◌, Bytes,
  codes, length, take, map, ltb, ◌==◌, is_empty, if◌then◌else◌,
}
use duckdb_splunk.External.{StringUtil}
use duckdb_splunk.Errors.{
  Exception, interrupted, discovery_denied, no_browser_response, browser_status, browser_failed,
  Result, ok, throw, ◌>>=◌,
}
use duckdb_splunk.Client.Connection.{SplunkClient, normalize_url, browser_auth_header}

-- DuckDB's `HTTPResponse`: `status` is 0 for `HTTPStatusCode::INVALID`, `success` is `Success()`,
-- and `error` is `GetError()`.
pub record HttpResponse : Type 0 where
  pub status : ℕ
  pub success : Bool
  pub body : Bytes
  pub error : Bytes

-- The request that is handed to `HTTPUtil`; a form makes it a POST.
pub record BrowserRequest : Type 0 where
  pub request_url : Bytes
  pub timeout : ℕ
  pub retries : ℕ
  pub keep_alive : Bool
  pub follow_location : Bool
  pub headers : List (Bytes × Bytes)
  pub form_body : Option Bytes

abbrev pub max_error_detail_length : ℕ
max_error_detail_length = 500

-- A tab or the end of a line becomes a space.
unfoldable pub flat_character : ℕ → ℕ
flat_character c = if c == b'\r' || (c == b'\n' || c == b'\t') then b' ' else c

unfoldable pub cut_detail : Bytes → Bytes
cut_detail detail =
    if ltb max_error_detail_length (length detail)
    then take max_error_detail_length detail ++ codes "..."
    else detail

abbrev pub export_path : Bytes
export_path = codes "/services/search/v2/jobs/export"

-- `on_chunk` gives its new state, and whether it wants more.
abbrev pub consumed_whole {ℓ} : {S : Type ℓ} → S × Bool → Result S
consumed_whole (s, wants_more) = if wants_more then ok s else throw interrupted

module _ (su : StringUtil) where
  -- `BrowserHTTPErrorDetail`.
  unfoldable pub browser_http_error_detail : HttpResponse → Bytes
  unfolding flat_character cut_detail
  browser_http_error_detail r =
      cut_detail (map flat_character (su.trim (if is_empty r.body then r.error else r.body)))

  authorization : Option Bytes → List (Bytes × Bytes)
  authorization none = []
  authorization (some value) = (codes "Authorization", value) ∷ []

  content_type : Option Bytes → List (Bytes × Bytes)
  content_type none = []
  content_type (some form) = (codes "Content-Type", codes "application/x-www-form-urlencoded") ∷ []

  -- What `AuthenticatedRequest` asks for. `to_base64` is DuckDB's `Blob::ToBase64`.
  unfoldable pub browser_request :
      (Bytes → Bytes) → SplunkClient → Bytes → Option Bytes → BrowserRequest
  unfolding authorization content_type
  browser_request to_base64 client path form_body = record {
    request_url = normalize_url su client.url ++ path;
    timeout = client.timeout_seconds;
    retries = client.retries;
    keep_alive = true;
    follow_location = false;
    headers =
        (codes "Accept", codes "application/json")
        ∷ (authorization (browser_auth_header su to_base64 client) ++ content_type form_body);
    form_body = form_body;
  }

  -- Behind the request: the exception of a response that is no success.
  refused_by : SplunkClient → Bool → HttpResponse → Exception
  refused_by client index_discovery r =
      let status = r.status % 2 ^ 16 in
      if index_discovery && (status == 401 || status == 403)
      then discovery_denied status
      else if not (r.status == 0)
      then browser_status status (normalize_url su client.url) (browser_http_error_detail r)
      else browser_failed (normalize_url su client.url) r.error

  unfoldable pub browser_reply : SplunkClient → Bool → Option HttpResponse → Result Bytes
  unfolding refused_by
  browser_reply client index_discovery none =
      throw (no_browser_response (normalize_url su client.url))
  browser_reply client index_discovery (some r) =
      if not r.success then throw (refused_by client index_discovery r) else ok r.body

  module _ (to_base64 : Bytes → Bytes) (client : SplunkClient)
      (http : BrowserRequest → Option HttpResponse) where
    -- `AuthenticatedRequest`, where `http` is `http_util.Request`; the null pointer is `none`.
    unfoldable pub browser_authenticated_request : Bool → Bytes → Option Bytes → Bool → Result Bytes
    browser_authenticated_request is_interrupted path form_body index_discovery =
        if is_interrupted
        then throw interrupted
        else browser_reply client index_discovery
            (http (browser_request to_base64 client path form_body))

    -- `ExportSearch`.
    unfoldable pub browser_export_search {ℓ} :
        {S : Type ℓ} → Bool → Bytes → (Bytes → S → S × Bool) → S → Result S
    browser_export_search is_interrupted form_body on_chunk s =
        browser_authenticated_request is_interrupted export_path (some form_body) false
        >>= λ response. if is_empty response then ok s else consumed_whole (on_chunk response s)

    -- `ListIndexes`.
    unfoldable pub browser_list_indexes : Bool → Result Bytes
    browser_list_indexes is_interrupted =
        browser_authenticated_request is_interrupted
          (codes "/services/data/indexes?output_mode=json&count=0") none true
