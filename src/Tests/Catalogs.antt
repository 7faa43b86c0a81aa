-- ===== src/Tests/Catalogs.antt =====
-- Secrets and catalogs.
use duckdb_splunk.Prelude.{
  ◌≡◌, refl, Bool, true, false, ◌||◌, Option, none, some, inl, List, [], ◌∷◌, Bytes, codes, pos,
  equal, lower_byte, if◌then◌else◌,
}
use duckdb_splunk.External.{
  Json, str, arr, obj, Items, nil, cons, Fields, end, field, Scalar, varchar_scalar, boolean_scalar,
  DuckValue, scalar, varchar_list, Values,
}
use duckdb_splunk.Errors.{Result, ok, throw, no_schema}
use duckdb_splunk.Client.Connection.{SplunkClient, default_url}
use duckdb_splunk.Secret.{
  Secret, SecretManager, SplunkCredentials, is_known_option, create_splunk_secret,
  get_splunk_credentials,
}
use duckdb_splunk.Secret.Usable.{IsUsable, get_splunk_credentials-IsUsable}
use duckdb_splunk.Catalog.{
  Attached, read_options, attach_with, resolve_indexes, parse_explicit_indexes,
  parse_discovered_indexes, attach_splunk,
}
use duckdb_splunk.Catalog.Entries.{
  TableEntry, SchemaEntry, splunk_catalog, table_entry, schema_entry, schema_scan, lookup_entry,
  lookup_schema,
}
use duckdb_splunk.Catalog.Session.{
  Request, start, commit, change_schema, create_table, is_open, emplace, erase, serve, serve_all,
  attach,
}
use duckdb_splunk.Catalog.Session.Stable.{started_last, serve_all-open}
use duckdb_splunk.Bind.Tables.{schema_after}
use duckdb_splunk.Catalog.Indexes.{IsExplicit, parse_explicit_indexes-IsExplicit}
use duckdb_splunk.Catalog.Discovered.{IsDiscovered, parse_discovered_indexes-IsDiscovered}
use duckdb_splunk.Catalog.Sound.{IsAttached, attach_splunk-IsAttached}
use duckdb_splunk.Catalog.Offline.{attach_splunk-GivesIndexes}
use duckdb_splunk.Tests.Samples.{ascii, table_json}

abbrev text : Bytes → DuckValue
text s = scalar (varchar_scalar s)

-- Shows texts; every other value is empty, and no value is a number.
abbrev pub texts_only : Values
texts_only = record {
  show = λ v. elim v [ scalar (varchar_scalar s) ↦ s | _ ↦ [] ];
  get_int64 = λ v. pos 0;
}

abbrev pub options : List (Bytes × DuckValue)
options =
    (codes "TOKEN", text (codes "old"))
    ∷ (codes "Token_Type", text (codes "splunk"))
    ∷ (codes "color", text (codes "red"))
    ∷ (codes "token", text (codes "new"))
    ∷ []

abbrev pub manager : SecretManager
manager = record {
  by_name = λ name.
      if equal name (codes "prod")
      then some (create_splunk_secret ascii [] (codes "prod") options)
      else none;
  all_secrets = none ∷ some (create_splunk_secret ascii [] (codes "prod") options) ∷ [];
}

abbrev pub prod : SplunkCredentials
prod = record {
  name = codes "prod";
  url = default_url;
  username = [];
  password = [];
  token = codes "new";
  token_type = codes "splunk";
  insecure_tls = false;
}

pub reads_credentials : get_splunk_credentials ascii texts_only manager [] ≡ ok prod
unfolding get_splunk_credentials duckdb_splunk.Secret.select_secret
    duckdb_splunk.Secret.first_splunk equal create_splunk_secret duckdb_splunk.Secret.splunk_map
    duckdb_splunk.Secret.check_credentials duckdb_splunk.Secret.has_token
    duckdb_splunk.Secret.read_settings duckdb_splunk.Secret.get_setting
    duckdb_splunk.Secret.try_get_value duckdb_splunk.Secret.copy_options
    duckdb_splunk.Secret.copy_option is_known_option lower_byte duckdb_splunk.Secret.set_value
reads_credentials = refl

get_splunk_credentials-IsUsable_example : IsUsable ascii prod
get_splunk_credentials-IsUsable_example =
    get_splunk_credentials-IsUsable ascii texts_only manager [] prod reads_credentials

abbrev pub indexes : List Bytes
indexes = codes "Main" ∷ codes "main" ∷ []

abbrev logs : SchemaEntry
logs = schema_entry indexes (codes "prod")

finds_exact :
    lookup_entry ascii true (codes "main") logs ≡ some (table_entry (codes "prod") (codes "main"))
unfolding lookup_entry schema_entry table_entry duckdb_splunk.Catalog.Entries.first_table equal
finds_exact = refl

lists_tables :
    schema_scan true (λ table names. table.name ∷ names) logs [] ≡ codes "main" ∷ codes "Main" ∷ []
unfolding duckdb_splunk.Catalog.Entries.scan_tables schema_entry table_entry
lists_tables = refl

-- Three transactions, one of them ended, and a write.
abbrev pub requests : List Request
requests = start 16 ∷ start 32 ∷ change_schema create_table ∷ start 48 ∷ commit 32 ∷ []

serve_all-open_example :
    is_open 32 (serve_all requests (attach (splunk_catalog indexes (codes "prod")))).transactions
    ≡ started_last 32 requests false
serve_all-open_example = serve_all-open (splunk_catalog indexes (codes "prod")) requests 32

-- The table that a name in upper case finds after these requests, and its scan.
abbrev pub main_table : TableEntry
main_table = table_entry (codes "prod") (codes "Main")

pub finds_folded :
    lookup_entry ascii true (codes "MAIN") (schema_after indexes (codes "prod") requests)
    ≡ some main_table
unfolding lookup_entry schema_entry table_entry duckdb_splunk.Catalog.Entries.first_table equal
    lower_byte serve_all serve emplace erase is_open
finds_folded = refl

abbrev children : DuckValue
children = varchar_list (
    varchar_scalar (codes "main")
    ∷ varchar_scalar (codes "web")
    ∷ varchar_scalar (codes "main")
    ∷ [])

parses_explicit : parse_explicit_indexes children ≡ ok (codes "main" ∷ codes "web" ∷ [])
unfolding parse_explicit_indexes duckdb_splunk.Catalog.explicit_names
    duckdb_splunk.Catalog.explicit_name duckdb_splunk.Catalog.is_seen equal
parses_explicit = refl

parse_explicit_indexes-IsExplicit_example : IsExplicit children (codes "main" ∷ codes "web" ∷ [])
parse_explicit_indexes-IsExplicit_example =
    parse_explicit_indexes-IsExplicit children (codes "main" ∷ codes "web" ∷ []) parses_explicit

-- An answer with two entries of one name, and one with none.
abbrev named : Bytes → Json
named s = obj (field (codes "name") (str s) end)

abbrev answer : Json
answer = obj (
    field (codes "entry")
      (arr (cons (named (codes "main")) (cons (obj end) (cons (named (codes "main")) nil)))) end)

abbrev pub documents : List (Bytes × Json)
documents = (codes "answer", answer) ∷ []

parses_discovered :
    parse_discovered_indexes (table_json documents) (codes "answer") ≡ ok (codes "main" ∷ [])
unfolding parse_discovered_indexes duckdb_splunk.Catalog.entry_names duckdb_splunk.Catalog.entry_of
    duckdb_splunk.Catalog.discovered_names duckdb_splunk.Catalog.discovered_name
    duckdb_splunk.Catalog.is_seen equal duckdb_splunk.Prelude.c_string duckdb_splunk.External.assoc
    duckdb_splunk.External.members duckdb_splunk.External.elements
parses_discovered = refl

parse_discovered_indexes-IsDiscovered_example :
    IsDiscovered (table_json documents) (codes "answer") (codes "main" ∷ [])
parse_discovered_indexes-IsDiscovered_example =
    parse_discovered_indexes-IsDiscovered (table_json documents) (codes "answer")
      (codes "main" ∷ []) parses_discovered

abbrev pub main_only : SplunkClient → Result Bytes
main_only client = ok (codes "answer")

abbrev silent : SplunkClient → Result Bytes
silent client = ok []

attach_splunk-GivesIndexes_example :
    attach_splunk ascii
      (table_json documents)
      texts_only
      manager
      main_only
      (codes "splunk:")
      ((codes "indexes", children) ∷ [])
    ≡ attach_splunk ascii
        (table_json documents)
        texts_only
        manager
        silent
        (codes "splunk:")
        ((codes "indexes", children) ∷ [])
unfolding lower_byte
attach_splunk-GivesIndexes_example =
    attach_splunk-GivesIndexes ascii (table_json documents) texts_only manager main_only silent
      (codes "splunk:") ((codes "indexes", children) ∷ []) (inl refl)

-- No option: the answer of the discovery, and the first secret.
abbrev pub attached : Attached
attached = record { indexes = codes "main" ∷ []; secret_name = codes "prod" }

pub attaches :
    attach_splunk ascii (table_json documents) texts_only manager main_only (codes "splunk:") []
    ≡ ok attached
unfolding attach_splunk read_options attach_with resolve_indexes parse_discovered_indexes
    duckdb_splunk.Catalog.entry_names duckdb_splunk.Catalog.entry_of
    duckdb_splunk.Catalog.discovered_names duckdb_splunk.Catalog.discovered_name
    duckdb_splunk.Catalog.is_seen equal duckdb_splunk.Prelude.c_string duckdb_splunk.External.assoc
    duckdb_splunk.External.members duckdb_splunk.External.elements get_splunk_credentials
    duckdb_splunk.Secret.select_secret duckdb_splunk.Secret.first_splunk create_splunk_secret
    duckdb_splunk.Secret.splunk_map duckdb_splunk.Secret.check_credentials
    duckdb_splunk.Secret.has_token duckdb_splunk.Secret.read_settings
    duckdb_splunk.Secret.get_setting duckdb_splunk.Secret.try_get_value
    duckdb_splunk.Secret.copy_options duckdb_splunk.Secret.copy_option is_known_option lower_byte
    duckdb_splunk.Secret.set_value
attaches = refl

-- The secret by its name.
abbrev by_secret : List (Bytes × DuckValue)
by_secret = (codes "Secret", text (codes "prod")) ∷ []

attaches_by_secret :
    attach_splunk ascii
      (table_json documents)
      texts_only
      manager
      main_only
      (codes "splunk:")
      by_secret
    ≡ ok attached
unfolding attach_splunk read_options duckdb_splunk.Catalog.read_option
    duckdb_splunk.Catalog.secret_option attach_with resolve_indexes parse_discovered_indexes
    duckdb_splunk.Catalog.entry_names duckdb_splunk.Catalog.entry_of
    duckdb_splunk.Catalog.discovered_names duckdb_splunk.Catalog.discovered_name
    duckdb_splunk.Catalog.is_seen equal duckdb_splunk.Prelude.c_string duckdb_splunk.External.assoc
    duckdb_splunk.External.members duckdb_splunk.External.elements get_splunk_credentials
    duckdb_splunk.Secret.select_secret duckdb_splunk.Secret.found_or create_splunk_secret
    duckdb_splunk.Secret.splunk_map duckdb_splunk.Secret.check_credentials
    duckdb_splunk.Secret.has_token duckdb_splunk.Secret.read_settings
    duckdb_splunk.Secret.get_setting duckdb_splunk.Secret.try_get_value
    duckdb_splunk.Secret.copy_options duckdb_splunk.Secret.copy_option is_known_option lower_byte
    duckdb_splunk.Secret.set_value
attaches_by_secret = refl

attach_splunk-IsAttached_example :
    IsAttached ascii
      (table_json documents)
      texts_only
      manager
      main_only
      (codes "splunk:")
      by_secret
      attached
attach_splunk-IsAttached_example =
    attach_splunk-IsAttached ascii (table_json documents) texts_only manager main_only
      (codes "splunk:") by_secret attached attaches_by_secret

-- The schema has one name, in any case.
finds_schema :
    (lookup_schema ascii (codes "LOGS") true (splunk_catalog indexes (codes "prod"))
      ≡ ok (some logs))
    × (lookup_schema ascii (codes "main") false (splunk_catalog indexes (codes "prod")) ≡ ok none)
    × (lookup_schema ascii (codes "main") true (splunk_catalog indexes (codes "prod"))
        ≡ throw (no_schema (codes "main")))
unfolding lookup_schema equal lower_byte
finds_schema = (refl, refl, refl)
