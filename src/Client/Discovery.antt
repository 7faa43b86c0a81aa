-- ===== src/Client/Discovery.antt =====
-- src/splunk_client.cpp: the native ListIndexes, a request of AuthenticatedRequest.
use duckdb_splunk.Prelude.{true, Option, none, some, List, [], ◌∷◌, Bytes, codes}
use duckdb_splunk.External.{StringUtil}
use duckdb_splunk.Client.Connection.{SplunkClient}
use duckdb_splunk.Client.Retry.{Reply, Network, Attempts, authenticated_request}

-- What an attempt hands to the connection: a form is posted.
pub record ApiRequest : Type 0 where
  pub path : Bytes
  pub headers : List (Bytes × Bytes)
  pub form : Option (Bytes × Bytes)

-- The form with its content type.
form_of : Option Bytes → Option (Bytes × Bytes)
form_of none = none
form_of (some form_body) = some (form_body, codes "application/x-www-form-urlencoded")

unfoldable pub api_request : Bytes → Option Bytes → ApiRequest
unfolding form_of
api_request path form_body = record {
  path = path;
  headers = (codes "Accept", codes "application/json") ∷ [];
  form = form_of form_body;
}

abbrev pub indexes_path : Bytes
indexes_path = codes "/services/data/indexes?output_mode=json&count=0"

module _ (su : StringUtil) (server : SplunkClient → ApiRequest → Network Reply) where
  -- `ListIndexes`, with a server that answers each client's requests.
  unfoldable pub list_indexes : SplunkClient → Attempts Bytes
  list_indexes client =
      authenticated_request su client true (server client (api_request indexes_path none))
