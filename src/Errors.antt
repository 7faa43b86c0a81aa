-- ===== src/Errors.antt =====
-- The exceptions that the extension throws, and the two shapes of code that may throw.
use duckdb_splunk.Prelude.{ℕ, Bytes, ◌≡◌, refl}

pub data Exception : Type 0 where
  -- `InterruptException`.
  interrupted : Exception
  -- `IOException("Splunk search error (%s): %s", type, text)`.
  search_error : Bytes → Bytes → Exception
  -- `IOException("Splunk API request to %s failed: %s", url, error)`.
  request_failed : Bytes → ℕ → Exception
  -- `IOException("Splunk export request to %s failed after receiving %llu bytes: %s", ...)`.
  export_failed : Bytes → ℕ → ℕ → Exception
  -- `IOException("Splunk API returned HTTP %d: %s", status, body)`.
  http_status : ℕ → Bytes → Exception
  -- `IOException("Splunk index discovery returned HTTP %d. ...", status)`.
  discovery_denied : ℕ → Exception
  -- `IOException("Splunk index discovery ...")` for an answer that cannot be read.
  bad_discovery : Bytes → Exception
  -- The exceptions of the browser build: no response through a proxy, an error status with its
  -- detail, and another failure with its text.
  no_browser_response : Bytes → Exception
  browser_status : ℕ → Bytes → Bytes → Exception
  browser_failed : Bytes → Bytes → Exception
  -- `CatalogException("Schema with name %s does not exist!", name)`.
  no_schema : Bytes → Exception
  -- `BinderException("Splunk catalogs are read-only")`.
  read_only : Exception
  -- `InvalidInputException`, with the fixed part of its message.
  invalid_input : Bytes → Exception

-- A function that returns a value or throws.
pub data Result {ℓ} (A : Type ℓ) : Type ℓ where
  throw : Exception → Result A
  ok : A → Result A

-- A procedure on a state that outlives an exception.
pub data Run {ℓ} (S : Type ℓ) : Type ℓ where
  running : S → Run S
  thrown : Exception → S → Run S

-- One procedure after another.
abbrev pub and_then {ℓ} : {S : Type ℓ} → Run S → (S → Run S) → Run S
and_then (running s) f = f s
and_then (thrown e s) f = thrown e s

-- A function behind one that may throw.
infixl 5 ◌>>=◌
abbrev pub ◌>>=◌ {κ ℓ} : {B : Type κ} {A : Type ℓ} (m : Result A) (next : A → Result B) → Result B
throw e >>= next = throw e
ok value >>= next = next value

-- Inversion of a bind that returns.
pub >>=-eq-ok {κ ℓ} :
    {B : Type κ} {A : Type ℓ} {result : B} (first : Result A) (next : A → Result B)
    → (first >>= next) ≡ ok result
    → (value : A) × (first ≡ ok value) × (next value ≡ ok result)
>>=-eq-ok (throw e) next returns = cc
>>=-eq-ok (ok value) next returns = (value, refl, returns)
