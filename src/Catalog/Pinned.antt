-- ===== src/Catalog/Pinned.antt =====
-- The secret that a catalog keeps is the one that its attachment has found.
use duckdb_splunk.Prelude.{
  ◌≡◌, ◌≢◌, ◌⊎◌, refl, ap, ◌∙◌, sym, inl, inr, true, false, not, Option, none, some, [], ◌∷◌, Bytes,
  is_empty, Bool-cases, if_true, if_false,
}
use duckdb_splunk.External.{StringUtil, Values}
use duckdb_splunk.Errors.{Exception, ok, ◌>>=◌, >>=-eq-ok}
use duckdb_splunk.Secret.{
  Secret, SecretManager, SplunkCredentials, first_splunk, found_or, select_secret, splunk_map,
  read_settings, check_credentials, get_splunk_credentials,
}
use duckdb_splunk.Secret.Usable.{check_credentials-ok}
use duckdb_splunk.Catalog.{pinned}

-- The secret manager finds its first `splunk` secret by the name of that.
abbrev pub FindsByName : SecretManager → Type 0
FindsByName manager =
    (s : Secret) → first_splunk manager.all_secrets ≡ some s → manager.by_name s.name ≡ some s

-- The name that a catalog keeps: the one that the options give, or the name of the secret found.
abbrev pub KeepsName : Bytes → SplunkCredentials → Bytes → Type 0
KeepsName given c kept = ((given ≡ []) × (kept ≡ c.name)) ⊎ ((given ≢ []) × (kept ≡ given))

pub pinned-KeepsName : (given : Bytes) (c : SplunkCredentials) → KeepsName given c (pinned given c)
pinned-KeepsName [] c = inl (refl, refl)
pinned-KeepsName (x ∷ given) c = inr ((λ e. cc), refl)

pub KeepsName-pinned :
    (given kept : Bytes) (c : SplunkCredentials) → KeepsName given c kept → kept ≡ pinned given c
KeepsName-pinned [] kept c (inl (empty, e)) = e
KeepsName-pinned (x ∷ given) kept c (inl (empty, e)) = cc
KeepsName-pinned [] kept c (inr (full, e)) = absurd (full refl)
KeepsName-pinned (x ∷ given) kept c (inr (full, e)) = e

module _ (su : StringUtil) (values : Values) (manager : SecretManager) where
  -- Which secret the credentials are of.
  credentials_name :
      (secret_name : Bytes) (c : SplunkCredentials)
      → get_splunk_credentials su values manager secret_name ≡ ok c
      → (s : Secret) × (select_secret manager secret_name ≡ ok s) × (c.name ≡ s.name)
  unfolding get_splunk_credentials
  credentials_name secret_name c h =
      let (s, p, h') = >>=-eq-ok (select_secret manager secret_name) _ h in
      let (m, q, h'') = >>=-eq-ok (splunk_map s) _ h' in
      let (same, given, scheme) =
        check_credentials-ok su values (read_settings su values s.name m) c h'' in
      (s, p, ap SplunkCredentials.name (sym same) ∙ unfold read_settings in refl)

  same_secret :
      (a b : Bytes)
      → select_secret manager a ≡ select_secret manager b
      → get_splunk_credentials su values manager a ≡ get_splunk_credentials su values manager b
  unfolding get_splunk_credentials
  same_secret a b h =
      ap
        (λ r. r >>= λ s.
          splunk_map s >>= λ m. check_credentials su values (read_settings su values s.name m))
        h

  found_or-ok : (o : Option Secret) (e : Exception) (s : Secret) → found_or o e ≡ ok s → o ≡ some s
  unfolding found_or
  found_or-ok (some t) e s h = cc
  found_or-ok none e s h = cc

  select_first :
      (s : Secret) → select_secret manager [] ≡ ok s → first_splunk manager.all_secrets ≡ some s
  unfolding select_secret
  select_first s h = found_or-ok (first_splunk manager.all_secrets) _ s h

  select_named :
      (name : Bytes) (s : Secret)
      → is_empty name ≡ false
      → manager.by_name name ≡ some s
      → select_secret manager name ≡ ok s
  unfolding select_secret found_or
  select_named name s e h = if_true _ _ (ap not e) ∙ rw h refl

  empty_name : (name : Bytes) → is_empty name ≡ true → name ≡ []
  empty_name [] h = refl
  empty_name (c ∷ name) h = cc

  -- The first secret, under its own name.
  select-name :
      (s : Secret)
      → FindsByName manager
      → select_secret manager [] ≡ ok s
      → select_secret manager s.name ≡ ok s
  select-name s finds h = elim (Bool-cases (is_empty s.name)) [
    | inl empty ↦ ap (select_secret manager) (empty_name s.name empty) ∙ h
    | inr full ↦ select_named s.name s full (finds s (select_first s h))
  ]

  pub pinned-credentials :
      (secret_name : Bytes) (c : SplunkCredentials)
      → FindsByName manager
      → get_splunk_credentials su values manager secret_name ≡ ok c
      → get_splunk_credentials su values manager (pinned secret_name c) ≡ ok c
  pinned-credentials secret_name c finds h = elim (Bool-cases (is_empty secret_name)) [
    | inr full ↦ ap (get_splunk_credentials su values manager) (if_false _ _ full) ∙ h
    | inl empty ↦
        let (s, p, n) = credentials_name secret_name c h in
        let p' : select_secret manager [] ≡ ok s =
          ap (select_secret manager) (sym (empty_name secret_name empty)) ∙ p in
        ap (get_splunk_credentials su values manager) (if_true _ _ empty ∙ n)
        ∙ same_secret s.name secret_name (select-name s finds p' ∙ sym p)
        ∙ h
  ]
