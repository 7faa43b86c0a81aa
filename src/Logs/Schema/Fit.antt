-- ===== src/Logs/Schema/Fit.antt =====
-- The values of a row have the types of their columns.
use duckdb_splunk.Prelude.{
  ℕ, zero, suc, ◌≡◌, refl, ap, sym, Bool, true, false, Option, none, some, List, [], ◌∷◌, Bytes, ℤ,
  map, ◌==◌, ==_iff, ◌||◌, if◌then◌else◌, arith, subst,
}
use duckdb_splunk.External.{Json, Platform, StringUtil}
use duckdb_splunk.Logs.Row.{
  Value, text_value, attributes_value, time_value, severity_value, map_event,
}
use duckdb_splunk.Logs.Row.Columns.{column_value, map_event-columns}
use duckdb_splunk.Logs.Schema.{LogicalType, column_types, column_type}

-- NULL fits every column, one that the schema lacks included; other values fit their own type.
pub data Fits : Option LogicalType → Value → Type 0 where
  null_fits : {t : Option LogicalType} → Fits t Value.null_value
  varchar_fits :
      {t : Option LogicalType} {s : Bytes} → t ≡ some LogicalType.varchar → Fits t (Value.varchar s)
  integer_fits :
      {t : Option LogicalType} {n : ℕ} → t ≡ some LogicalType.integer → Fits t (Value.integer n)
  timestamp_fits :
      {t : Option LogicalType} {n : ℤ}
      → t ≡ some LogicalType.timestamp_ns
      → Fits t (Value.timestamp_ns n)

-- A row with a value for each column, of the column's type.
abbrev pub RowFits : List ℕ → List Value → Type 0
RowFits [] [] = Unit {0}
RowFits (c ∷ cs) (v ∷ vs) = Fits (column_type c) v × RowFits cs vs
RowFits _ _ = ⊥

text-Fits :
    {t : Option LogicalType} (o : Option Bytes)
    → t ≡ some LogicalType.varchar
    → Fits t (text_value o)
text-Fits none e = null_fits
text-Fits (some s) e = varchar_fits e

attributes-Fits :
    {t : Option LogicalType} (s : Bytes)
    → t ≡ some LogicalType.varchar
    → Fits t (attributes_value s)
attributes-Fits [] e = null_fits
attributes-Fits (c ∷ s) e = varchar_fits e

severity-Fits :
    {t : Option LogicalType} (su : StringUtil) (o : Option Bytes)
    → t ≡ some LogicalType.integer
    → Fits t (severity_value su o)
severity-Fits su none e = null_fits
severity-Fits su (some s) e = integer_fits e

time-Fits :
    {t : Option LogicalType} (o : Option ℤ)
    → t ≡ some LogicalType.timestamp_ns
    → Fits t (time_value o)
time-Fits none e = null_fits
time-Fits (some n) e = timestamp_fits e

-- One test of the switch.
Fits-if :
    {t : Option LogicalType} (b : Bool) {v w : Value}
    → (b ≡ true → Fits t v)
    → Fits t w
    → Fits t (if b then v else w)
Fits-if true h k = h refl
Fits-if false h k = k

-- The column that a test has found.
column_at : (c k : ℕ) → (c == k) ≡ true → column_type c ≡ column_type k
column_at c k h = ap column_type ((==_iff c k).0 h)

time_column : (c : ℕ) → c == 0 || c == 1 ≡ true → column_type c ≡ some LogicalType.timestamp_ns
unfolding column_types
time_column zero h = refl
time_column (suc zero) h = refl
time_column (suc (suc c)) h = absurd (ground arith)

column_value-Fits :
    (p : Platform) (event : Json) (c : ℕ) → Fits (column_type c) (column_value p event c)
unfolding column_types
column_value-Fits p event c =
    Fits-if (c == 0 || c == 1) (λ e. time-Fits _ (time_column c e))
      (Fits-if (c == 2) (λ e. text-Fits _ (column_at c 2 e))
        (Fits-if (c == 3) (λ e. text-Fits _ (column_at c 3 e))
          (Fits-if (c == 4) (λ e. text-Fits _ (column_at c 4 e))
            (Fits-if (c == 7) (λ e. severity-Fits _ _ (column_at c 7 e))
              (Fits-if (c == 8) (λ e. text-Fits _ (column_at c 8 e))
                (Fits-if (c == 10) (λ e. text-Fits _ (column_at c 10 e))
                  (Fits-if (c == 11) (λ e. attributes-Fits _ (column_at c 11 e))
                    (Fits-if (c == 15) (λ e. attributes-Fits _ (column_at c 15 e)) null_fits))))))))

RowFits-map :
    (p : Platform) (event : Json) (column_ids : List ℕ)
    → RowFits column_ids (map (column_value p event) column_ids)
RowFits-map p event [] = tt
RowFits-map p event (c ∷ cs) = (column_value-Fits p event c, RowFits-map p event cs)

-- A mapped row has one value for each projected column, and each value is NULL or has the type
-- that the schema gives that column; a column number outside the schema has NULL.
pub map_event-RowFits :
    (p : Platform) (event : Json) (column_ids : List ℕ)
    → RowFits column_ids (map_event p event column_ids)
map_event-RowFits p event column_ids =
    subst (RowFits column_ids) (sym (map_event-columns p event column_ids))
      (RowFits-map p event column_ids)
