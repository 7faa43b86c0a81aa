-- ===== src/Client/Browser/Agreement.antt =====
-- The browser build and the native one make the same of an answer that is not retried.
use duckdb_splunk.Prelude.{◌^◌, ◌<◌, ◌≡◌, Bool, ◌&&◌, some, Bytes, ltb, leb, arith}
use duckdb_splunk.External.{StringUtil}
use duckdb_splunk.Errors.{
  Exception, http_status, discovery_denied, browser_status, Result, ok, throw,
}
use duckdb_splunk.Client.Connection.{SplunkClient, normalize_url}
use duckdb_splunk.Client.Retry.{Response, response, returned, raised, Decision, finish, decide}
use duckdb_splunk.Client.Browser.{HttpResponse, browser_http_error_detail, browser_reply}

-- One answer as the two HTTP libraries hand it over: a status of 16 bits and a body, and success
-- is a status from 200 to 299.
pub record IsSame (r : HttpResponse) (a : Response) : Type 0 where
  pub same_status : r.status ≡ a.status
  pub same_body : r.body ≡ a.body
  pub in_range : (0 < a.status) × (a.status < 2 ^ 16)
  pub success_lem : r.success ≡ leb 200 a.status && ltb a.status 300

module _ (su : StringUtil) (client : SplunkClient) where
  -- The same body; the same refusal of the discovery; or the same status, where the native build
  -- shows the body and the browser build its detail.
  abbrev pub AgreesWith : HttpResponse → Exception → Exception → Type 0
  AgreesWith r (http_status status body) e =
      (body ≡ r.body)
      × (e ≡ browser_status status (normalize_url su client.url) (browser_http_error_detail su r))
  AgreesWith r (discovery_denied status) e = e ≡ discovery_denied status
  AgreesWith r _ e = ⊥

  abbrev pub Agrees : HttpResponse → Decision Bytes → Result Bytes → Type 0
  Agrees r (finish (returned body)) (ok body') = body ≡ body'
  Agrees r (finish (raised e)) (throw e') = AgreesWith r e e'
  Agrees r _ _ = ⊥

  -- If the two HTTP libraries hand over the same answer, with a status from 1 to 65535, then
  -- the browser build and the last attempt of the native build agree on it: both return its
  -- body, or both refuse an index discovery with its status, or both report its status, the one
  -- with the body and the other with its error detail.
  pub browser_reply-Agrees :
      (index_discovery : Bool) (r : HttpResponse) (a : Response)
      → IsSame r a
      → Agrees r
          (decide su client index_discovery client.retries (response a))
          (browser_reply su client index_discovery (some r))
  unfolding decide browser_reply
  browser_reply-Agrees index_discovery r a h =
      ground (arith, h.same_status, h.same_body, h.in_range.0, h.in_range.1, h.success_lem)
