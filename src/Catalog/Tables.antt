-- ===== src/Catalog/Tables.antt =====
-- The tables of an attached catalog, and the names that lead to them.
use duckdb_splunk.Prelude.{
  ◌≡◌, ◌⊎◌, refl, ap, ◌∙◌, sym, inl, inr, Bool, true, false, Option, none, some, List, [], ◌∷◌,
  Bytes, equal, equal_iff, map, Member, here, there, Bool-cases, if_true, if_false, subst,
}
use duckdb_splunk.External.{StringUtil}
use duckdb_splunk.Catalog.Entries.{
  TableEntry, first_table, table_entry, schema_entry, find_ci, lookup_entry,
}
use duckdb_splunk.Catalog.Lookup.{
  FirstFit, fits, passed, LookupOutcome, exact, folded, lookup_entry-LookupOutcome,
}

FirstFit-cons :
    {test : TableEntry → Bool} {table other : TableEntry} {tables : List TableEntry}
    → FirstFit test table (other ∷ tables)
    → ((table ≡ other) × (test table ≡ true)) ⊎ FirstFit test table tables
FirstFit-cons (fits h) = inl (refl, h)
FirstFit-cons (passed d h) = inr h

Member-cons :
    {name index : Bytes} {indexes : List Bytes}
    → Member name (index ∷ indexes)
    → (index ≡ name) ⊎ Member name indexes
Member-cons here = inl refl
Member-cons (there m) = inr m

module _ (secret_name : Bytes) where
  -- A table that passes a test is the table of an index.
  FirstFit-index :
      (test : TableEntry → Bool) (table : TableEntry) (indexes : List Bytes)
      → FirstFit test table (map (table_entry secret_name) indexes)
      → (index : Bytes) × Member index indexes
        × (table ≡ table_entry secret_name index)
        × (test table ≡ true)
  FirstFit-index test table [] h = elim h [ ]
  FirstFit-index test table (index ∷ indexes) h = elim (FirstFit-cons h) [
    | inl (same, fit) ↦ (index, here, same, fit)
    | inr later ↦ let (i, m, e, t) = FirstFit-index test table indexes later in (i, there m, e, t)
  ]

  first_table-Member :
      (name : Bytes) (indexes : List Bytes)
      → Member name indexes
      → first_table (λ t. equal t.name name) (map (table_entry secret_name) indexes)
        ≡ some (table_entry secret_name name)
  unfolding first_table table_entry
  first_table-Member name [] m = elim m [ ]
  first_table-Member name (index ∷ indexes) m = elim (Bool-cases (equal index name)) [
    | inl same ↦
        if_true _ _ same
        ∙ ap (λ i. some (table_entry secret_name i)) ((equal_iff index name).0 same)
    | inr other ↦
        if_false _ _ other
        ∙ first_table-Member name indexes (elim (Member-cons m) [
          | inl e ↦ absurd (let clash : false ≡ true = sym other ∙ (equal_iff index name).1 e in cc)
          | inr later ↦ later
        ])
  ]

module _ (su : StringUtil) (indexes : List Bytes) (secret_name : Bytes) where
  -- A table that a lookup may find for a name.
  abbrev pub Answers : Bytes → TableEntry → Type 0
  Answers name table =
      Member table.index_name indexes
      × ((table.index_name ≡ name) ⊎ (su.ci_equals table.index_name name ≡ true))
      × (table ≡ table_entry secret_name table.index_name)

  index_of : (index : Bytes) → (table_entry secret_name index).index_name ≡ index
  unfolding table_entry
  index_of index = refl

  name_of : (index : Bytes) → (table_entry secret_name index).name ≡ index
  unfolding table_entry
  name_of index = refl

  found-Answers :
      (name : Bytes) (table : TableEntry) (index : Bytes)
      → Member index indexes
      → table ≡ table_entry secret_name index
      → (table.name ≡ name) ⊎ (su.ci_equals table.name name ≡ true)
      → Answers name table
  found-Answers name table index m e h =
      let i : table.index_name ≡ index = ap TableEntry.index_name e ∙ index_of index in
      let n : table.name ≡ table.index_name = ap TableEntry.name e ∙ name_of index ∙ sym i in
      (
        subst (λ k. Member k indexes) (sym i) m,
        subst (λ k. (k ≡ name) ⊎ (su.ci_equals k name ≡ true)) n h,
        e ∙ ap (table_entry secret_name) (sym i),
      )

  pub lookup_entry-Answers :
      (name : Bytes) (table : TableEntry)
      → lookup_entry su true name (schema_entry indexes secret_name) ≡ some table
      → Answers name table
  unfolding schema_entry
  lookup_entry-Answers name table h =
      answered (lookup_entry su true name (schema_entry indexes secret_name)) h
        (lookup_entry-LookupOutcome su name (schema_entry indexes secret_name))
    where
      same_table : {t : TableEntry} → some t ≡ some table → t ≡ table
      same_table e = cc

      answered :
          (o : Option TableEntry)
          → o ≡ some table
          → LookupOutcome su name (map (table_entry secret_name) indexes) o
          → Answers name table
      answered none e l = cc
      answered (some t) e (exact n f) =
          let (index, m, r, fit) = FirstFit-index secret_name _ t indexes f in
          subst (Answers name) (same_table e) (found-Answers name t index m r (inl n))
      answered (some t) e (folded a f) =
          let (index, m, r, fit) = FirstFit-index secret_name _ t indexes f in
          subst (Answers name) (same_table e) (found-Answers name t index m r (inr fit))

  pub lookup_entry-Member :
      (name : Bytes)
      → Member name indexes
      → lookup_entry su true name (schema_entry indexes secret_name)
        ≡ some (table_entry secret_name name)
  unfolding lookup_entry schema_entry
  lookup_entry-Member name m =
      ap
        (λ o. elim o [
          | some table ↦ some table
          | none ↦ find_ci su name (schema_entry indexes secret_name).tables
        ])
        (first_table-Member secret_name name indexes m)
