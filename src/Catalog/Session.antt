-- ===== src/Catalog/Session.antt =====
-- src/splunk_catalog.cpp: SplunkTransaction, SplunkTransactionManager and the operations that a
-- read-only catalog refuses, as requests to an attached catalog.
pub mod Stable
use duckdb_splunk.Prelude.{
  ℕ, Bool, true, false, Option, none, some, List, [], ◌∷◌, ◌==◌, if◌then◌else◌,
}
use duckdb_splunk.Errors.{Exception, read_only, Result, ok, throw}
use duckdb_splunk.Catalog.Entries.{SplunkCatalog}

-- The operations that call `ThrowReadOnly`: of the schema, of the catalog, of a transaction.
pub data SchemaChange : Type 0 where
  create_index create_function create_table create_view create_sequence : SchemaChange
  create_table_function create_copy_function create_pragma_function : SchemaChange
  create_collation create_coordinate_system create_type drop_entry alter : SchemaChange

pub data CatalogChange : Type 0 where
  create_schema plan_create_table_as plan_insert plan_delete plan_update drop_schema : CatalogChange

pub data TransactionChange : Type 0 where
  set_read_write set_modifications : TransactionChange

-- The set of transactions of `SplunkTransactionManager`: the keys of `transactions`, which are
-- addresses.
abbrev pub Transactions : Type 0
Transactions = List ℕ

unfoldable pub is_open : ℕ → Transactions → Bool
is_open a [] = false
is_open a (t ∷ ts) = if t == a then true else is_open a ts

-- `emplace`, which leaves a key that is there.
unfoldable pub emplace : ℕ → Transactions → Transactions
emplace a ts = if is_open a ts then ts else a ∷ ts

unfoldable pub erase : ℕ → Transactions → Transactions
erase a [] = []
erase a (t ∷ ts) = let rest = erase a ts in if t == a then ts else t ∷ rest

pub record Session : Type 0 where
  pub catalog : SplunkCatalog
  pub transactions : Transactions

-- What DuckDB asks of an attached catalog. `start` names the address that `make_uniq` gives.
pub data Request : Type 0 where
  start : ℕ → Request
  commit : ℕ → Request
  rollback : ℕ → Request
  checkpoint : Request
  change_schema : SchemaChange → Request
  change_catalog : CatalogChange → Request
  change_transaction : TransactionChange → Request

-- `ThrowReadOnly`.
abbrev pub throw_read_only {ℓ} : {A : Type ℓ} → Result A
throw_read_only = throw read_only

-- `StartTransaction`, `CommitTransaction`, `RollbackTransaction`, `Checkpoint`, and the
-- operations that throw.
unfoldable pub serve : Request → Session → Result Session
serve (start a) s = ok (record s { transactions = emplace a s.transactions })
serve (commit a) s = ok (record s { transactions = erase a s.transactions })
serve (rollback a) s = ok (record s { transactions = erase a s.transactions })
serve checkpoint s = ok s
serve (change_schema c) s = throw_read_only
serve (change_catalog c) s = throw_read_only
serve (change_transaction c) s = throw_read_only

-- DuckDB goes on with the state from before a request that throws.
abbrev pub served : Session → Result Session → Session
served s (ok s') = s'
served s (throw e) = s

unfoldable pub serve_all : List Request → Session → Session
serve_all [] s = s
serve_all (request ∷ requests) s = serve_all requests (served s (serve request s))

abbrev pub attach : SplunkCatalog → Session
attach catalog = record { catalog = catalog; transactions = [] }
