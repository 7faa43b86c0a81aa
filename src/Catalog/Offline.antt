-- ===== src/Catalog/Offline.antt =====
-- Explicit indexes keep an attachment off the network.
use duckdb_splunk.Prelude.{
  ◌≡◌, ◌≢◌, ◌⊎◌, refl, ap, inl, inr, not, Option, none, some, List, [], ◌∷◌, Bytes, codes, equal,
  if◌then◌else◌, arith,
}
use duckdb_splunk.External.{StringUtil, Yyjson, DuckValue, Values}
use duckdb_splunk.Errors.{Result, ok, throw, ◌>>=◌}
use duckdb_splunk.Client.Connection.{SplunkClient}
use duckdb_splunk.Secret.{SecretManager, SplunkCredentials, get_splunk_credentials}
use duckdb_splunk.Catalog.{
  AttachOptions, parse_explicit_indexes, secret_option, read_option, read_options, resolve_indexes,
  attach_with, attach_splunk, pinned,
}

module _ (su : StringUtil) where
  -- One of the options is `INDEXES`, in any case.
  abbrev pub GivesIndexes : List (Bytes × DuckValue) → Type 0
  GivesIndexes [] = ⊥
  GivesIndexes ((name, value) ∷ options) = (su.lower name ≡ codes "indexes") ⊎ GivesIndexes options

  -- The options that are read name the indexes, or reading them throws.
  Supplied : Result AttachOptions → Type 0
  Supplied (ok o) = o.indexes ≢ none
  Supplied (throw e) = Unit {0}

  set_indexes-Supplied :
      (r : Result (List Bytes)) (o : AttachOptions)
      → Supplied (r >>= λ names. ok (record o { indexes = some names }))
  unfolding Supplied
  set_indexes-Supplied (ok names) o = λ e. cc
  set_indexes-Supplied (throw e) o = tt

  set_secret-Supplied :
      (r : Result Bytes) (o : AttachOptions)
      → o.indexes ≢ none
      → Supplied (r >>= λ s. ok (record o { secret_name = s }))
  unfolding Supplied
  set_secret-Supplied (ok s) o h = h
  set_secret-Supplied (throw e) o h = tt

  >>=-Supplied :
      (r : Result AttachOptions) (f : AttachOptions → Result AttachOptions)
      → Supplied r
      → ((o : AttachOptions) → o.indexes ≢ none → Supplied (f o))
      → Supplied (r >>= f)
  unfolding Supplied
  >>=-Supplied (ok o) f h k = k o h
  >>=-Supplied (throw e) f h k = tt

  -- Later options leave the indexes given.
  read_option-Supplied :
      (name : Bytes) (value : DuckValue) (o : AttachOptions)
      → o.indexes ≢ none
      → Supplied (read_option su (name, value) o)
  unfolding read_option Supplied
  read_option-Supplied name value o h = ground (
    arith,
    set_secret-Supplied (secret_option value) o h,
    set_indexes-Supplied (parse_explicit_indexes value) o,
  )

  read_options-Supplied :
      (options : List (Bytes × DuckValue)) (o : AttachOptions)
      → o.indexes ≢ none
      → Supplied (read_options su options o)
  unfolding read_options
  read_options-Supplied [] o h = unfold Supplied in h
  read_options-Supplied ((name, value) ∷ options) o h =
      >>=-Supplied (read_option su (name, value) o) _ (read_option-Supplied name value o h)
        (λ o' h'. read_options-Supplied options o' h')

  read_indexes-Supplied :
      (name : Bytes) (value : DuckValue) (o : AttachOptions)
      → su.lower name ≡ codes "indexes"
      → Supplied (read_option su (name, value) o)
  unfolding read_option equal
  read_indexes-Supplied name value o h =
      rw h (set_indexes-Supplied (parse_explicit_indexes value) o)

  bind-Supplied :
      (r : Result AttachOptions) (f : AttachOptions → Result AttachOptions)
      → ((o : AttachOptions) → Supplied (f o))
      → Supplied (r >>= f)
  unfolding Supplied
  bind-Supplied (ok o) f k = k o
  bind-Supplied (throw e) f k = tt

  GivesIndexes-Supplied :
      (options : List (Bytes × DuckValue)) (o : AttachOptions)
      → GivesIndexes options
      → Supplied (read_options su options o)
  unfolding read_options
  GivesIndexes-Supplied [] o h = absurd h
  GivesIndexes-Supplied ((name, value) ∷ options) o (inl here) =
      >>=-Supplied (read_option su (name, value) o) _ (read_indexes-Supplied name value o here)
        (λ o' h'. read_options-Supplied options o' h')
  GivesIndexes-Supplied ((name, value) ∷ options) o (inr later) =
      bind-Supplied (read_option su (name, value) o) _
        (λ o'. GivesIndexes-Supplied options o' later)

module _ (su : StringUtil) (y : Yyjson) (values : Values) (manager : SecretManager) where
  resolve_indexes-same :
      (net net' : SplunkClient → Result Bytes) (o : Option (List Bytes))
      → o ≢ none
      → resolve_indexes su y values manager net o ≡ resolve_indexes su y values manager net' o
  unfolding resolve_indexes
  resolve_indexes-same net net' none h = absurd (h refl)
  resolve_indexes-same net net' (some names) h = refl

  after_options :
      (r : Result AttachOptions) {A : Type 0} (f g : AttachOptions → Result A)
      → Supplied su r
      → ((o : AttachOptions) → o.indexes ≢ none → f o ≡ g o)
      → (r >>= f) ≡ (r >>= g)
  unfolding Supplied
  after_options (ok o) f g h k = k o h
  after_options (throw e) f g h k = refl

  attach_with-same :
      (net net' : SplunkClient → Result Bytes) (o : AttachOptions)
      → o.indexes ≢ none
      → attach_with su y values manager net o ≡ attach_with su y values manager net' o
  unfolding attach_with
  attach_with-same net net' o h =
      ap
        (λ (resolve : SplunkCredentials → Result (List Bytes)).
          get_splunk_credentials su values manager o.secret_name >>= λ creds.
          resolve creds >>= λ names.
          ok (record { indexes = names; secret_name = pinned o.secret_name creds }))
        (resolve_indexes-same net net' o.indexes h)

  -- If one of the options is `INDEXES`, in any case, then what an attachment gives or throws
  -- does not depend on the answers of the index discovery.
  pub attach_splunk-GivesIndexes :
      (net net' : SplunkClient → Result Bytes) (path : Bytes) (options : List (Bytes × DuckValue))
      → GivesIndexes su options
      → attach_splunk su y values manager net path options
        ≡ attach_splunk su y values manager net' path options
  unfolding attach_splunk
  attach_splunk-GivesIndexes net net' path options h =
      let same =
        after_options (read_options su options (record { secret_name = []; indexes = none }))
          (attach_with su y values manager net) (attach_with su y values manager net')
          (GivesIndexes-Supplied su options _ h) (λ o given. attach_with-same net net' o given) in
      ap (if◌then◌else◌ (not (equal path (codes "splunk:"))) _) same
