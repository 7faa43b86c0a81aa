-- ===== src/Extension/Options.antt =====
-- The parameters that the extension registers are those that its functions read.
use duckdb_splunk.Prelude.{
  ◌≡◌, ap, ◌∙◌, sym, inl, inr, ◌⊎◌, true, false, List, ◌∷◌, Bytes, Bool-cases, arith, subst,
}
use duckdb_splunk.External.{StringUtil, DuckValue, Values}
use duckdb_splunk.Errors.{ok}
use duckdb_splunk.Secret.{is_known_option}
use duckdb_splunk.Bind.{Parameters, set_parameter}
use duckdb_splunk.Extension.{
  CreateSecretFunction, TableFunction, ExtensionLoader, splunk_secret_function, read_splunk_logs,
  load_internal, has_parameter, register_splunk_secret_type, register_splunk_catalog,
  register_splunk_logs_function,
}

secret_options :
    (name : Bytes)
    → has_parameter name splunk_secret_function.named_parameters ≡ is_known_option name
unfolding has_parameter splunk_secret_function is_known_option
secret_options name = ground arith

set_parameter-unregistered :
    (su : StringUtil) (values : Values) (key : Bytes) (value : DuckValue) (b : Parameters)
    → has_parameter key read_splunk_logs.named_parameters ≡ false
    → set_parameter su values key value b ≡ ok b
unfolding has_parameter read_splunk_logs set_parameter
set_parameter-unregistered su values key value b h = ground arith

-- The secret function and the table function that loading registers take exactly the options that
-- the code reads: a parameter of the secret function is a key that a new secret keeps and
-- conversely, and a key that is no parameter of `read_splunk_logs` changes nothing in its bind.
pub load_internal-options :
    (su : StringUtil) (values : Values) (loader : ExtensionLoader) (key : Bytes) (value : DuckValue)
    (b : Parameters) (secret : CreateSecretFunction) (table : TableFunction)
    → (load_internal loader).secret_functions ≡ secret ∷ loader.secret_functions
    → (load_internal loader).table_functions ≡ table ∷ loader.table_functions
    → (has_parameter key secret.named_parameters ≡ is_known_option key)
      × ((has_parameter key table.named_parameters ≡ true)
          ⊎ (set_parameter su values key value b ≡ ok b))
unfolding load_internal register_splunk_secret_type register_splunk_catalog
    register_splunk_logs_function
load_internal-options su values loader key value b secret table s t =
    let secret_lem : splunk_secret_function ≡ secret = same_head s in
    let table_lem : read_splunk_logs ≡ table = same_head t in
    (
      ap (λ (f : CreateSecretFunction). has_parameter key f.named_parameters) (sym secret_lem)
          ∙ secret_options key,
      subst
          (λ (f : TableFunction).
            (has_parameter key f.named_parameters ≡ true)
            ⊎ (set_parameter su values key value b ≡ ok b))
          table_lem
          (elim (Bool-cases (has_parameter key read_splunk_logs.named_parameters)) [
            | inl registered ↦ inl registered
            | inr not_registered ↦
                inr (set_parameter-unregistered su values key value b not_registered)
          ]),
    )
  where
    same_head : {A : Type 0} {x y : A} {xs ys : List A} → (x ∷ xs) ≡ (y ∷ ys) → x ≡ y
    same_head e = cc
