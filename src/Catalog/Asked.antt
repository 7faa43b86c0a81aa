-- ===== src/Catalog/Asked.antt =====
-- An attachment that asks the server for its indexes.
use duckdb_splunk.Prelude.{
  ℕ, ◌≡◌, refl, ap, ◌∙◌, true, Option, none, List, [], Bytes, codes, equal, subst,
}
use duckdb_splunk.External.{StringUtil, Yyjson, DuckValue, Values}
use duckdb_splunk.Errors.{Result, ok, throw, ◌>>=◌}
use duckdb_splunk.Client.Connection.{SplunkClient}
use duckdb_splunk.Client.Retry.{
  Reply, Network, Outcome, Response, returned, raised, undefined_shift, out_of_fuel,
}
use duckdb_splunk.Client.Retry.Settles.{
  Settles, answer_of, outcome_of, authenticated_request-Settles,
}
use duckdb_splunk.Client.Discovery.{ApiRequest, api_request, indexes_path, list_indexes}
use duckdb_splunk.Secret.{SecretManager, SplunkCredentials, get_splunk_credentials}
use duckdb_splunk.Catalog.{
  AttachOptions, read_options, pinned, discovery_client, resolve_indexes, attach_with,
  attach_splunk, parse_discovered_indexes,
}

-- A result that is the outcome of a request. Undefined behaviour does not say what it is.
abbrev pub IsOutcome : Outcome Bytes → Result Bytes → Type 0
IsOutcome (returned body) result = result ≡ ok body
IsOutcome (raised e) result = result ≡ throw e
IsOutcome undefined_shift result = Unit {0}
IsOutcome out_of_fuel result = Unit {0}

IsOutcome-outcome_of :
    (answer result : Result Bytes) → IsOutcome (outcome_of answer) result → result ≡ answer
IsOutcome-outcome_of (ok body) result h = h
IsOutcome-outcome_of (throw e) result h = h

module _ (su : StringUtil) (y : Yyjson) (values : Values) (manager : SecretManager)
    (server : SplunkClient → ApiRequest → Network Reply) (lists : SplunkClient → Result Bytes) where
  -- `lists` is what `ListIndexes` does against the server.
  abbrev pub ListsFrom : Type 0
  ListsFrom =
      (client : SplunkClient) → IsOutcome (list_indexes su server client).outcome (lists client)

  lists-answer :
      (n : ℕ) (r : Response) (client : SplunkClient)
      → ListsFrom
      → Settles client (server client (api_request indexes_path none)) n r
      → lists client ≡ answer_of true r
  unfolding list_indexes
  lists-answer n r client l h = IsOutcome-outcome_of _ (lists client) (
      subst (λ o. IsOutcome o (lists client))
        (authenticated_request-Settles su client true
          (server client (api_request indexes_path none)) n r h)
        (l client))

  -- If the options of an attachment name no indexes, its secret has credentials, the native
  -- ListIndexes asks the server, attempt `n` is answered, with a status that is retried only on
  -- the last attempt, after attempts that failed and are retried, `n` is at most `retries` and
  -- at most 64, and nobody interrupts the query, then the attachment to `splunk:` is made of
  -- the names in the body of a status from 200 to 299, throws the advice to name the indexes
  -- for 401 and 403, and throws the status and the body for any other; an answer that cannot be
  -- read is thrown as such.
  pub attach_splunk-answer :
      (options : List (Bytes × DuckValue)) (o : AttachOptions) (c : SplunkCredentials) (n : ℕ)
      (r : Response)
      → ListsFrom
      → read_options su options (record { secret_name = []; indexes = none }) ≡ ok o
      → o.indexes ≡ none
      → get_splunk_credentials su values manager o.secret_name ≡ ok c
      → Settles
          (discovery_client c)
          (server (discovery_client c) (api_request indexes_path none))
          n
          r
      → attach_splunk su y values manager lists (codes "splunk:") options ≡ (
          answer_of true r >>= λ response. parse_discovered_indexes y response >>= λ names.
          ok (record { indexes = names; secret_name = pinned o.secret_name c }))
  attach_splunk-answer options o c n r l read asked found h =
      opens options
      ∙ ap (λ read_options_result. read_options_result >>= attach_with su y values manager lists)
          read
      ∙ resolved o c found (
          asks o.indexes c asked
          ∙ ap (λ response. response >>= λ text. parse_discovered_indexes y text)
              (lists-answer n r (discovery_client c) l h))
      ∙ regroup (answer_of true r) _ _
    where
      opens :
          (options : List (Bytes × DuckValue))
          → attach_splunk su y values manager lists (codes "splunk:") options ≡ (
              read_options su options (record { secret_name = []; indexes = none })
              >>= attach_with su y values manager lists)
      opens options = unfold attach_splunk equal in refl

      asks :
          (indexes : Option (List Bytes)) (c : SplunkCredentials)
          → indexes ≡ none
          → resolve_indexes su y values manager lists indexes c
            ≡ (lists (discovery_client c) >>= λ text. parse_discovered_indexes y text)
      asks indexes c e = unfold resolve_indexes in rw e refl

      resolved :
          (o : AttachOptions) (c : SplunkCredentials) {names : Result (List Bytes)}
          → get_splunk_credentials su values manager o.secret_name ≡ ok c
          → resolve_indexes su y values manager lists o.indexes c ≡ names
          → attach_with su y values manager lists o
            ≡ (names >>= λ ns. ok (record { indexes = ns; secret_name = pinned o.secret_name c }))
      resolved o c found e = unfold attach_with in rw found (rw e refl)

      regroup :
          {A B C : Type 0} (m : Result A) (f : A → Result B) (g : B → Result C)
          → ((m >>= f) >>= g) ≡ (m >>= λ a. f a >>= g)
      regroup (ok a) f g = refl
      regroup (throw e) f g = refl
