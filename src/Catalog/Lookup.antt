-- ===== src/Catalog/Lookup.antt =====
-- Which table a name leads to.
use duckdb_splunk.Prelude.{
  ◌≡◌, ◌≢◌, ◌∙◌, sym, inl, inr, Bool, true, false, Option, none, some, List, [], ◌∷◌, Bytes, equal,
  equal_iff, All, Bool-cases,
}
use duckdb_splunk.External.{StringUtil}
use duckdb_splunk.Catalog.Entries.{
  TableEntry, SchemaEntry, first_table, find_exact, find_ci, lookup_entry,
}

-- `table` is the first of the tables that pass a test.
pub data FirstFit (test : TableEntry → Bool) (table : TableEntry) : List TableEntry → Type 0 where
  fits : {tables : List TableEntry} → test table ≡ true → FirstFit test table (table ∷ tables)
  passed :
      {other : TableEntry} {tables : List TableEntry}
      → test other ≡ false
      → FirstFit test table tables
      → FirstFit test table (other ∷ tables)

FirstOutcome : (TableEntry → Bool) → List TableEntry → Option TableEntry → Type 0
FirstOutcome test tables none = All (λ t. test t ≡ false) tables
FirstOutcome test tables (some table) = FirstFit test table tables

FirstOutcome-cons :
    (test : TableEntry → Bool) (other : TableEntry) (tables : List TableEntry)
    (o : Option TableEntry)
    → test other ≡ false
    → FirstOutcome test tables o
    → FirstOutcome test (other ∷ tables) o
unfolding FirstOutcome
FirstOutcome-cons test other tables none d h = (d, h)
FirstOutcome-cons test other tables (some t) d h = passed d h

first_table-FirstOutcome :
    (test : TableEntry → Bool) (tables : List TableEntry)
    → FirstOutcome test tables (first_table test tables)
unfolding first_table FirstOutcome
first_table-FirstOutcome test [] = tt
first_table-FirstOutcome test (table ∷ tables) = elim (Bool-cases (test table)) [
  | inl fit ↦ rw fit (fits fit)
  | inr other ↦ rw other (
      FirstOutcome-cons test table tables (first_table test tables) other
        (first_table-FirstOutcome test tables))
]

module _ (su : StringUtil) (name : Bytes) where
  -- What each result of the lookup of a table says.
  pub data LookupOutcome (tables : List TableEntry) : Option TableEntry → Type 0 where
    exact :
        {table : TableEntry}
        → table.name ≡ name
        → FirstFit (λ t. equal t.name name) table tables
        → LookupOutcome tables (some table)
    folded :
        {table : TableEntry}
        → All (λ t. t.name ≢ name) tables
        → FirstFit (λ t. su.ci_equals t.name name) table tables
        → LookupOutcome tables (some table)
    missing :
        All (λ t. t.name ≢ name) tables
        → All (λ t. su.ci_equals t.name name ≡ false) tables
        → LookupOutcome tables none

  fits-test :
      (test : TableEntry → Bool) (table : TableEntry) (tables : List TableEntry)
      → FirstFit test table tables
      → test table ≡ true
  fits-test test table tables (fits h) = h
  fits-test test table tables (passed d h) = fits-test test table _ h

  no_name :
      (tables : List TableEntry)
      → All (λ t. equal t.name name ≡ false) tables
      → All (λ t. t.name ≢ name) tables
  no_name [] h = tt
  no_name (table ∷ tables) h = (
    λ e. let clash : false ≡ true = sym h.0 ∙ (equal_iff table.name name).1 e in cc,
    no_name tables h.1,
  )

  join_outcomes :
      (tables : List TableEntry) (o p : Option TableEntry)
      → FirstOutcome (λ t. equal t.name name) tables o
      → FirstOutcome (λ t. su.ci_equals t.name name) tables p
      → LookupOutcome tables (elim o [ some table ↦ some table | none ↦ p ])
  unfolding FirstOutcome
  join_outcomes tables (some table) p h k =
      exact ((equal_iff table.name name).0 (fits-test _ table tables h)) h
  join_outcomes tables none (some table) h k = folded (no_name tables h) k
  join_outcomes tables none none h k = missing (no_name tables h) k

  -- A lookup of a table gives the table of exactly that name, if there is one; otherwise the
  -- first table whose name is the same but for case; and otherwise nothing, and no table has
  -- the name in any case.
  pub lookup_entry-LookupOutcome :
      (schema : SchemaEntry) → LookupOutcome schema.tables (lookup_entry su true name schema)
  unfolding lookup_entry
  lookup_entry-LookupOutcome schema =
      join_outcomes schema.tables (find_exact name schema.tables) (find_ci su name schema.tables)
        (first_table-FirstOutcome _ schema.tables) (first_table-FirstOutcome _ schema.tables)
