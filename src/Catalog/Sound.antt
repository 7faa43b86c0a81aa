-- ===== src/Catalog/Sound.antt =====
-- What an attachment that goes through has checked.
use duckdb_splunk.Prelude.{
  ◌≡◌, ◌⊎◌, ap, ◌∙◌, sym, inl, inr, not, Option, none, some, List, [], ◌∷◌, Bytes, codes, All,
  equal, equal_iff, Bool-cases, if_true, if_false, subst,
}
use duckdb_splunk.External.{StringUtil, Yyjson, DuckValue, Values}
use duckdb_splunk.Errors.{invalid_input, Result, ok, throw, >>=-eq-ok}
use duckdb_splunk.Client.Connection.{SplunkClient}
use duckdb_splunk.Secret.{SecretManager, SplunkCredentials, get_splunk_credentials}
use duckdb_splunk.Secret.Usable.{IsUsable, get_splunk_credentials-IsUsable}
use duckdb_splunk.Catalog.{
  AttachOptions, Attached, secret_option, parse_explicit_indexes, read_option, read_options,
  discovery_client, resolve_indexes, attach_with, attach_splunk,
}
use duckdb_splunk.Catalog.Indexes.{Fresh, parse_explicit_indexes-IsExplicit}
use duckdb_splunk.Catalog.Given.{SecretGiven, read_options-SecretGiven}
use duckdb_splunk.Catalog.Pinned.{KeepsName, pinned-KeepsName}
use duckdb_splunk.Catalog.Discovered.{parse_discovered_indexes-IsDiscovered}

-- The names of the option `INDEXES`, if it has been read.
abbrev FreshIndexes : Option (List Bytes) → Type 0
FreshIndexes none = Unit {0}
FreshIndexes (some names) = Fresh [] names

module _ (su : StringUtil) where
  -- One of the two options that are supported.
  abbrev pub IsSupported : Bytes → Type 0
  IsSupported name = (su.lower name ≡ codes "secret") ⊎ (su.lower name ≡ codes "indexes")

  read_option-IsSupported :
      (name : Bytes) (value : DuckValue) (o o' : AttachOptions)
      → read_option su (name, value) o ≡ ok o'
      → FreshIndexes o.indexes
      → IsSupported name × FreshIndexes o'.indexes
  unfolding read_option
  read_option-IsSupported name value o o' h f =
      elim (Bool-cases (equal (su.lower name) (codes "secret"))) [
        | inl secret ↦
            let (s, p, q) = >>=-eq-ok (secret_option value) _ (sym (if_true _ _ secret) ∙ h) in
            (
              inl ((equal_iff _ _).0 secret),
              subst (λ k. FreshIndexes (AttachOptions.indexes k)) (same q) f,
            )
        | inr no_secret ↦ elim (Bool-cases (equal (su.lower name) (codes "indexes"))) [
          | inl indexes ↦
              let (names, p, q) =
                >>=-eq-ok (parse_explicit_indexes value) _
                  (sym (if_true _ _ indexes) ∙ sym (if_false _ _ no_secret) ∙ h) in
              (
                inr ((equal_iff _ _).0 indexes),
                subst (λ k. FreshIndexes (AttachOptions.indexes k)) (same q)
                    (parse_explicit_indexes-IsExplicit value names p).fresh,
              )
          | inr unsupported ↦
              absurd (not_ok (sym (if_false _ _ unsupported) ∙ sym (if_false _ _ no_secret) ∙ h))
        ]
      ]
    where
      same : {k k' : AttachOptions} → ok k ≡ ok k' → k ≡ k'
      same e = cc

      not_ok : throw (invalid_input (codes "Unsupported Splunk ATTACH option")) ≡ ok o' → ⊥
      not_ok e = cc

  -- All options, in turn.
  read_options-IsSupported :
      (options : List (Bytes × DuckValue)) (o o' : AttachOptions)
      → read_options su options o ≡ ok o'
      → FreshIndexes o.indexes
      → All (λ option. IsSupported option.0) options × FreshIndexes o'.indexes
  unfolding read_options
  read_options-IsSupported [] o o' h f =
      (tt, subst (λ k. FreshIndexes (AttachOptions.indexes k)) (same h) f)
    where
      same : {k k' : AttachOptions} → ok k ≡ ok k' → k ≡ k'
      same e = cc
  read_options-IsSupported ((name, value) ∷ options) o o' h f =
      let (k, p, q) = >>=-eq-ok (read_option su (name, value) o) _ h in
      let (supported, f') = read_option-IsSupported name value o k p f in
      let (rest, f'') = read_options-IsSupported options k o' q f' in ((supported, rest), f'')

module _ (su : StringUtil) (y : Yyjson) (values : Values) (manager : SecretManager)
    (list_indexes : SplunkClient → Result Bytes) where
  -- An attachment: its path and options, its index names, each once and none empty, and usable
  -- credentials of the secret that its tables keep.
  pub record IsAttached (path : Bytes) (options : List (Bytes × DuckValue)) (a : Attached)
      : Type 0 where
    pub path_lem : path ≡ codes "splunk:"
    pub supported : All (λ option. IsSupported su option.0) options
    pub fresh : Fresh [] a.indexes
    pub given : Bytes
    pub secret_given : SecretGiven su options given
    pub credentials : SplunkCredentials
    pub found : get_splunk_credentials su values manager given ≡ ok credentials
    pub usable : IsUsable su credentials
    pub secret_lem : KeepsName given credentials a.secret_name

  resolve_indexes-Fresh :
      (indexes : Option (List Bytes)) (c : SplunkCredentials) (names : List Bytes)
      → FreshIndexes indexes
      → resolve_indexes su y values manager list_indexes indexes c ≡ ok names
      → Fresh [] names
  unfolding resolve_indexes
  resolve_indexes-Fresh (some given) c names f h = subst (Fresh []) (same h) f
    where
      same : {ns ns' : List Bytes} → ok ns ≡ ok ns' → ns ≡ ns'
      same e = cc
  resolve_indexes-Fresh none c names f h =
      let (response, p, q) = >>=-eq-ok (list_indexes (discovery_client c)) _ h in
      (parse_discovered_indexes-IsDiscovered y response names q).fresh

  attach_with-IsAttached :
      (path : Bytes) (options : List (Bytes × DuckValue)) (o : AttachOptions) (a : Attached)
      → path ≡ codes "splunk:"
      → All (λ option. IsSupported su option.0) options
      → FreshIndexes o.indexes
      → read_options su options (record { secret_name = []; indexes = none }) ≡ ok o
      → attach_with su y values manager list_indexes o ≡ ok a
      → IsAttached path options a
  unfolding attach_with
  attach_with-IsAttached path options o a is_splunk supported f read h =
      let (c, p, q) = >>=-eq-ok (get_splunk_credentials su values manager o.secret_name) _ h in
      let (names, r, made) =
        >>=-eq-ok (resolve_indexes su y values manager list_indexes o.indexes c) _ q in
      subst (IsAttached path options) (same made) (record {
        path_lem = is_splunk;
        supported = supported;
        fresh = resolve_indexes-Fresh o.indexes c names f r;
        given = o.secret_name;
        secret_given = read_options-SecretGiven su options o read;
        credentials = c;
        found = p;
        usable = get_splunk_credentials-IsUsable su values manager o.secret_name c p;
        secret_lem = pinned-KeepsName o.secret_name c;
      })
    where
      same : {k k' : Attached} → ok k ≡ ok k' → k ≡ k'
      same e = cc

  -- If an attachment goes through, then its path is `splunk:`, every option is `SECRET` or
  -- `INDEXES` in some spelling of its letters, its index names are each once and none empty,
  -- whether given or discovered, and it has found usable credentials for the secret that the
  -- last `SECRET` names, by a text that is not empty, or for none where no option is `SECRET`;
  -- the catalog keeps that name, or the name of the secret found where no option is `SECRET`.
  pub attach_splunk-IsAttached :
      (path : Bytes) (options : List (Bytes × DuckValue)) (a : Attached)
      → attach_splunk su y values manager list_indexes path options ≡ ok a
      → IsAttached path options a
  unfolding attach_splunk
  attach_splunk-IsAttached path options a h = elim (Bool-cases (equal path (codes "splunk:"))) [
    | inl is_splunk ↦
        let (o, p, q) =
          >>=-eq-ok (read_options su options (record { secret_name = []; indexes = none })) _
            (sym (if_false _ _ (ap not is_splunk)) ∙ h) in
        let (supported, f) = read_options-IsSupported su options _ o p tt in
        attach_with-IsAttached path options o a ((equal_iff path _).0 is_splunk) supported f p q
    | inr other ↦ absurd (not_ok (sym (if_true _ _ (ap not other)) ∙ h))
  ]
    where
      not_ok :
          throw (invalid_input (codes "Splunk catalogs must be attached from the path 'splunk:'"))
            ≡ ok a
          → ⊥
      not_ok e = cc
