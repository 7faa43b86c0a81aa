-- ===== src/Bind/Valid.antt =====
-- Bind data that is returned can be scanned.
use duckdb_splunk.Prelude.{
  ◌≡◌, ◌≢◌, ◌≤◌, ◌⊎◌, refl, ◌∙◌, sym, inl, inr, Bool, true, false, List, [], ◌∷◌, Bytes, codes, ℤ,
  pos, negsuc, ltb_ℤ, if◌then◌else◌, arith, Bool-cases, if_true, if_false, subst, ℕ,
}
use duckdb_splunk.External.{
  StringUtil, DuckValue, scalar, null_scalar, varchar_scalar, boolean_scalar, other_scalar,
  varchar_list, other_list, Values,
}
use duckdb_splunk.Errors.{invalid_input, Result, ok, throw, ◌>>=◌, >>=-eq-ok}
use duckdb_splunk.Secret.{SecretManager, SplunkCredentials, get_splunk_credentials}
use duckdb_splunk.Secret.Usable.{IsUsable, get_splunk_credentials-IsUsable}
use duckdb_splunk.Bind.{
  SplunkLogsBindData, Parameters, set_retries, set_timeout, with_credentials, set_parameter,
  read_parameter, read_parameters, bind_with, splunk_logs_bind,
}

abbrev HasTimeout : Parameters → Type 0
HasTimeout b = 1 ≤ b.result.client.timeout_seconds

-- What is returned has a timeout.
unfoldable Keeps : Result Parameters → Type 0
Keeps (ok b) = HasTimeout b
Keeps (throw e) = Unit {0}

kept : (b : Parameters) → HasTimeout b → Keeps (ok b)
unfolding Keeps
kept b h = h

Keeps-if : (c : Bool) (r s : Result Parameters) → Keeps r → Keeps s → Keeps (if c then r else s)
Keeps-if true r s h k = h
Keeps-if false r s h k = k

set_retries-Keeps : (z : ℤ) (b : Parameters) → HasTimeout b → Keeps (set_retries z b)
unfolding set_retries Keeps
set_retries-Keeps (pos n) b h = h
set_retries-Keeps (negsuc n) b h = tt

set_timeout-Keeps : (z : ℤ) (b : Parameters) → HasTimeout b → Keeps (set_timeout z b)
unfolding set_timeout Keeps
set_timeout-Keeps (pos n) b h = ground arith
set_timeout-Keeps (negsuc n) b h = tt

module _ (su : StringUtil) (values : Values) where
  set_parameter-Keeps :
      (key : Bytes) (value : DuckValue) (b : Parameters)
      → HasTimeout b
      → Keeps (set_parameter su values key value b)
  unfolding set_parameter Keeps
  set_parameter-Keeps key value b h = ground (
    arith,
    set_retries-Keeps (values.get_int64 value) b h,
    set_timeout-Keeps (values.get_int64 value) b h,
  )

  read_parameter-Keeps :
      (name : Bytes) (value : DuckValue) (b : Parameters)
      → HasTimeout b
      → Keeps (read_parameter su values (name, value) b)
  unfolding read_parameter
  read_parameter-Keeps name (scalar null_scalar) b h = kept b h
  read_parameter-Keeps name (scalar (varchar_scalar s)) b h = set_parameter-Keeps _ _ b h
  read_parameter-Keeps name (scalar (boolean_scalar s)) b h = set_parameter-Keeps _ _ b h
  read_parameter-Keeps name (scalar (other_scalar s)) b h = set_parameter-Keeps _ _ b h
  read_parameter-Keeps name (varchar_list s) b h = set_parameter-Keeps _ _ b h
  read_parameter-Keeps name (other_list s) b h = set_parameter-Keeps _ _ b h

  Keeps-bind :
      (r : Result Parameters) (f : Parameters → Result Parameters)
      → Keeps r
      → ((b : Parameters) → HasTimeout b → Keeps (f b))
      → Keeps (r >>= f)
  unfolding Keeps
  Keeps-bind (ok b) f h k = k b h
  Keeps-bind (throw e) f h k = tt

  read_parameters-Keeps :
      (parameters : List (Bytes × DuckValue)) (b : Parameters)
      → HasTimeout b
      → Keeps (read_parameters su values parameters b)
  unfolding read_parameters
  read_parameters-Keeps [] b h = kept b h
  read_parameters-Keeps ((name, value) ∷ parameters) b h =
      Keeps-bind (read_parameter su values (name, value) b) _ (read_parameter-Keeps name value b h)
        (λ b' h'. read_parameters-Keeps parameters b' h')

-- A row cap that is not negative, a timeout of a second or more, and an address and credentials.
pub record IsBound (d : SplunkLogsBindData) : Type 0 where
  pub cap_given : (n : ℕ) × (d.max_rows ≡ pos n)
  pub timeout_positive : 1 ≤ d.client.timeout_seconds
  pub url_given : d.client.url ≢ []
  pub credential_given :
      (d.client.token ≢ []) ⊎ ((d.client.username ≢ []) × (d.client.password ≢ []))

not_negative : (z : ℤ) → ltb_ℤ z (pos 0) ≡ false → (n : ℕ) × (z ≡ pos n)
not_negative (pos n) h = (n, refl)
not_negative (negsuc n) h = ground arith

module _ (su : StringUtil) (values : Values) (manager : SecretManager) where
  with_credentials-IsBound :
      (c : SplunkCredentials) (b : Parameters)
      → IsUsable su c
      → HasTimeout b
      → ltb_ℤ b.result.max_rows (pos 0) ≡ false
      → IsBound (with_credentials c b.result)
  unfolding with_credentials
  with_credentials-IsBound c b u t n = record {
    cap_given = not_negative b.result.max_rows n;
    timeout_positive = t;
    url_given = u.url_given;
    credential_given = u.credential_given;
  }

  bind_with-IsBound :
      (b : Parameters) (d : SplunkLogsBindData)
      → HasTimeout b
      → bind_with su values manager b ≡ ok d
      → IsBound d
  unfolding bind_with
  bind_with-IsBound b d t h = elim (Bool-cases (ltb_ℤ b.result.max_rows (pos 0))) [
    | inl negative ↦ absurd (not_ok (sym (if_true _ _ negative) ∙ h))
    | inr allowed ↦
        let (c, p, q) =
          >>=-eq-ok (get_splunk_credentials su values manager b.secret_name) _
            (sym (if_false _ _ allowed) ∙ h) in
        let same : with_credentials c b.result ≡ d = same_data _ q in
        subst IsBound same (
          with_credentials-IsBound c b
            (get_splunk_credentials-IsUsable su values manager b.secret_name c p) t allowed)
  ]
    where
      not_ok :
          throw
              (invalid_input (codes "read_splunk_logs: max_rows must be >= 0 (0 means unlimited)"))
            ≡ ok d
          → ⊥
      not_ok e = cc

      same_data : (d' : SplunkLogsBindData) → ok d' ≡ ok d → d' ≡ d
      same_data d' e = cc

  -- If the named parameters are accepted, then the row cap is not negative, the timeout is a
  -- second or more, the address is not empty, and the client has a token or both a user name
  -- and a password.
  pub splunk_logs_bind-IsBound :
      (parameters : List (Bytes × DuckValue)) (d : SplunkLogsBindData)
      → splunk_logs_bind su values manager parameters ≡ ok d
      → IsBound d
  unfolding splunk_logs_bind
  splunk_logs_bind-IsBound parameters d h =
      let (b, p, q) = >>=-eq-ok (read_parameters su values parameters _) _ h in
      bind_with-IsBound b d
        (has_timeout b (subst Keeps p (read_parameters-Keeps su values parameters _ (omega arith))))
        q
    where
      has_timeout : (b : Parameters) → Keeps (ok b) → HasTimeout b
      has_timeout b k = unfold Keeps in k
