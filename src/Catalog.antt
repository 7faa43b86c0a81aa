-- ===== src/Catalog.antt =====
-- src/splunk_catalog.cpp: the tables of an attached catalog, the indexes that they stand for, and
-- AttachSplunk.
pub mod Entries
pub mod Lookup
pub mod Indexes
pub mod Discovered
pub mod Offline
pub mod Tables
pub mod Given
pub mod Sound
pub mod Asked
pub mod Pinned
pub mod Session
use duckdb_splunk.Prelude.{
  Bool, true, false, not, Option, none, some, List, [], ◌∷◌, Bytes, codes, c_string, equal,
  is_empty, if◌then◌else◌,
}
use duckdb_splunk.External.{
  StringUtil, Json, str, arr, obj, elements, Yyjson, Scalar, varchar_scalar, DuckValue, scalar,
  varchar_list, Values,
}
use duckdb_splunk.Errors.{Exception, invalid_input, bad_discovery, Result, ok, throw, ◌>>=◌}
use duckdb_splunk.Client.Connection.{SplunkClient, default_client}
use duckdb_splunk.Secret.{SecretManager, SplunkCredentials, get_splunk_credentials}

-- `seen.insert(name).second` is whether the name is not yet in the set.
unfoldable pub is_seen : Bytes → List Bytes → Bool
is_seen name [] = false
is_seen name (s ∷ seen) = if equal s name then true else is_seen name seen

-- `result.push_back(name)` in front of the later names.
abbrev pub push_front : Bytes → Result (List Bytes) → Result (List Bytes)
push_front name rest = rest >>= λ names. ok (name ∷ names)

-- The checks of one child.
unfoldable pub explicit_name : Scalar → Result Bytes
explicit_name (varchar_scalar name) =
    if is_empty name
    then throw
        (invalid_input (codes "Splunk ATTACH option INDEXES must not contain empty index names"))
    else ok name
explicit_name _ =
    throw (
      invalid_input (codes "Splunk ATTACH option INDEXES must contain only non-null VARCHAR names"))

-- The loop over the children, with the set `seen`.
unfoldable pub explicit_names : List Bytes → List Scalar → Result (List Bytes)
explicit_names seen [] = ok []
explicit_names seen (child ∷ children) = explicit_name child >>= λ name.
    let repeated = explicit_names seen children in
    let added = push_front name (explicit_names (name ∷ seen) children) in
    if is_seen name seen then repeated else added

-- `ParseExplicitIndexes`.
unfoldable pub parse_explicit_indexes : DuckValue → Result (List Bytes)
parse_explicit_indexes (varchar_list children) = explicit_names [] children
parse_explicit_indexes _ =
    throw (invalid_input (codes "Splunk ATTACH option INDEXES must be a VARCHAR[]"))

module _ (y : Yyjson) where
  -- The name of one entry, if it has one that is not empty.
  unfoldable pub discovered_name : Json → Option Bytes
  discovered_name (obj fs) = elim (y.obj_get (obj fs) (codes "name")) [
    | some (str s) ↦ if is_empty (c_string s) then none else some (c_string s)
    | _ ↦ none
  ]
  discovered_name _ = none

  -- The loop over the entries, with the set `seen`.
  unfoldable pub discovered_names : List Bytes → List Json → List Bytes
  discovered_names seen [] = []
  discovered_names seen (entry ∷ entries) =
      let skipped = discovered_names seen entries in
      elim (discovered_name entry) [
        | none ↦ skipped
        | some name ↦
            (let added = name ∷ discovered_names (name ∷ seen) entries in
              if is_seen name seen then skipped else added)
      ]

  -- Behind the lookup of `entry`.
  unfoldable pub entry_names : Option Json → Result (List Bytes)
  entry_names (some (arr js)) = ok (discovered_names [] (elements (arr js)))
  entry_names _ = throw (bad_discovery (codes "response did not contain an entry array"))

  -- `root && yyjson_is_obj(root) ? yyjson_obj_get(root, "entry") : nullptr`.
  unfoldable pub entry_of : Json → Option Json
  entry_of (obj fs) = y.obj_get (obj fs) (codes "entry")
  entry_of _ = none

  -- `ParseDiscoveredIndexes`.
  unfoldable pub parse_discovered_indexes : Bytes → Result (List Bytes)
  parse_discovered_indexes response = elim (y.read response) [
    | none ↦ throw (bad_discovery (codes "returned invalid JSON"))
    | some root ↦ entry_names (entry_of root)
  ]

-- The local variables of `AttachSplunk`; `none` in place of `indexes_supplied == false`.
pub record AttachOptions : Type 0 where
  pub secret_name : Bytes
  pub indexes : Option (List Bytes)

-- What an attached catalog is made of.
pub record Attached : Type 0 where
  pub indexes : List Bytes
  pub secret_name : Bytes

-- The option `SECRET`.
unfoldable pub secret_option : DuckValue → Result Bytes
secret_option (scalar (varchar_scalar s)) =
    if is_empty s
    then throw (invalid_input (codes "Splunk ATTACH option SECRET must not be empty"))
    else ok s
secret_option _ =
    throw (invalid_input (codes "Splunk ATTACH option SECRET must be a non-null VARCHAR name"))

-- The client that discovers indexes.
unfoldable pub discovery_client : SplunkCredentials → SplunkClient
discovery_client c = record default_client {
  url = c.url;
  username = c.username;
  password = c.password;
  token = c.token;
  token_type = c.token_type;
  insecure_tls = c.insecure_tls;
}

module _ (su : StringUtil) where
  -- One round of the loop over the options.
  unfoldable pub read_option : Bytes × DuckValue → AttachOptions → Result AttachOptions
  read_option (name, value) o =
      let key = su.lower name in
      if equal key (codes "secret")
      then (secret_option value >>= λ s. ok (record o { secret_name = s }))
      else if equal key (codes "indexes")
      then (parse_explicit_indexes value >>= λ names. ok (record o { indexes = some names }))
      else throw (invalid_input (codes "Unsupported Splunk ATTACH option"))

  unfoldable pub read_options : List (Bytes × DuckValue) → AttachOptions → Result AttachOptions
  read_options [] o = ok o
  read_options (option ∷ options) o = read_option option o >>= read_options options

-- The secret that the tables use.
abbrev pub pinned : Bytes → SplunkCredentials → Bytes
pinned secret_name creds = if is_empty secret_name then creds.name else secret_name

module _ (su : StringUtil) (y : Yyjson) (values : Values) (manager : SecretManager)
    (list_indexes : SplunkClient → Result Bytes) where
  -- The indexes: those of the option, or those that the credential can see.
  unfoldable pub resolve_indexes : Option (List Bytes) → SplunkCredentials → Result (List Bytes)
  resolve_indexes (some names) creds = ok names
  resolve_indexes none creds =
      list_indexes (discovery_client creds) >>= λ response. parse_discovered_indexes y response

  -- Behind the loop over the options: the credentials, and then the indexes.
  unfoldable pub attach_with : AttachOptions → Result Attached
  attach_with o = get_splunk_credentials su values manager o.secret_name >>= λ creds.
      resolve_indexes o.indexes creds >>= λ names.
      ok (record { indexes = names; secret_name = pinned o.secret_name creds })

  -- `AttachSplunk`, of the path and the options. `list_indexes` is `ListIndexes`.
  unfoldable pub attach_splunk : Bytes → List (Bytes × DuckValue) → Result Attached
  attach_splunk path options =
      if not (equal path (codes "splunk:"))
      then throw (invalid_input (codes "Splunk catalogs must be attached from the path 'splunk:'"))
      else read_options su options (record { secret_name = []; indexes = none }) >>= attach_with
