-- ===== src/Secret/Usable.antt =====
-- Credentials that are returned can be used.
use duckdb_splunk.Prelude.{
  ◌≡◌, ◌≢◌, ◌⊎◌, ◌∙◌, sym, inl, inr, true, false, Option, none, some, [], ◌∷◌, Bytes, codes,
  is_empty, arith, Bool-cases, if_true, if_false, subst,
}
use duckdb_splunk.External.{StringUtil, DuckValue, Values}
use duckdb_splunk.Errors.{ok, >>=-eq-ok}
use duckdb_splunk.Client.Connection.{default_url}
use duckdb_splunk.Secret.{
  SecretManager, SecretMap, SplunkCredentials, has_token, has_basic_auth, select_secret, splunk_map,
  full_text_over, read_settings, check_credentials, get_splunk_credentials,
}

-- What a client needs: an address, a token or a user name with a password, and a known scheme.
pub record IsUsable (su : StringUtil) (c : SplunkCredentials) : Type 0 where
  pub url_given : c.url ≢ []
  pub credential_given : (c.token ≢ []) ⊎ ((c.username ≢ []) × (c.password ≢ []))
  pub known_scheme :
      (su.ci_equals c.token_type (codes "Bearer") ≡ true)
      ⊎ (su.ci_equals c.token_type (codes "Splunk") ≡ true)

not_empty : (s : Bytes) → is_empty s ≡ false → s ≢ []
not_empty [] h e = absurd (let h' : true ≡ false = h in cc)
not_empty (c ∷ s) h e = cc

module _ (su : StringUtil) (values : Values) where
  full_text_over-given :
      (default : Bytes) (o : Option DuckValue)
      → default ≢ []
      → full_text_over su values default o ≢ []
  full_text_over-given default none h = h
  full_text_over-given default (some v) h = elim (Bool-cases (is_empty (values.show v))) [
    | inl empty ↦ λ e. h (sym (if_true _ _ empty) ∙ e)
    | inr full ↦ λ e. not_empty (values.show v) full (sym (if_false _ _ full) ∙ e)
  ]

  read_settings-url : (name : Bytes) (m : SecretMap) → (read_settings su values name m).url ≢ []
  unfolding read_settings
  read_settings-url name m = full_text_over-given default_url _ (λ e. cc)

  credential :
      (c : SplunkCredentials)
      → (has_token c ≡ true) ⊎ (has_basic_auth c ≡ true)
      → (c.token ≢ []) ⊎ ((c.username ≢ []) × (c.password ≢ []))
  unfolding has_token has_basic_auth
  credential c (inl t) = inl (not_empty c.token (ground arith))
  credential c (inr b) =
      inr (not_empty c.username (ground arith), not_empty c.password (ground arith))

  -- What the checks leave of the credentials.
  pub check_credentials-ok :
      (c d : SplunkCredentials)
      → check_credentials su values c ≡ ok d
      → (c ≡ d)
        × ((has_token c ≡ true) ⊎ (has_basic_auth c ≡ true))
        × ((su.ci_equals c.token_type (codes "Bearer") ≡ true)
            ⊎ (su.ci_equals c.token_type (codes "Splunk") ≡ true))
  unfolding check_credentials
  check_credentials-ok c d h = (ground arith, ground arith, ground arith)

  -- If credentials are returned, then their address is not empty, they hold a token or both a
  -- user name and a password, and their token type is `Bearer` or `Splunk` by a comparison that
  -- ignores case.
  pub get_splunk_credentials-IsUsable :
      (manager : SecretManager) (secret_name : Bytes) (c : SplunkCredentials)
      → get_splunk_credentials su values manager secret_name ≡ ok c
      → IsUsable su c
  unfolding get_splunk_credentials
  get_splunk_credentials-IsUsable manager secret_name c h =
      let (s, p, h') = >>=-eq-ok (select_secret manager secret_name) _ h in
      let (m, q, h'') = >>=-eq-ok (splunk_map s) _ h' in
      let (same, given, scheme) = check_credentials-ok (read_settings su values s.name m) c h'' in
      subst (IsUsable su) same (record {
        url_given = read_settings-url s.name m;
        credential_given = credential _ given;
        known_scheme = scheme;
      })
