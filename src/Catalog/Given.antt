-- ===== src/Catalog/Given.antt =====
-- src/splunk_catalog.cpp, AttachSplunk: which secret the options of an attachment name.
use duckdb_splunk.Prelude.{
  ◌≡◌, ◌≢◌, ◌⊎◌, ap, ◌∙◌, sym, inl, inr, List, [], ◌∷◌, ◌++◌, Bytes, codes, All, equal, equal_iff,
  is_empty, Bool-cases, if_true, if_false, Bool, true, false, if◌then◌else◌, none, some,
}
use duckdb_splunk.External.{
  StringUtil, DuckValue, scalar, varchar_scalar, null_scalar, boolean_scalar, other_scalar,
  varchar_list,
}
use duckdb_splunk.Errors.{invalid_input, ok, throw, ◌>>=◌, >>=-eq-ok}
use duckdb_splunk.Catalog.{
  AttachOptions, secret_option, parse_explicit_indexes, read_option, read_options,
}
use duckdb_splunk.Catalog.Indexes.{nonempty}

secret_option-text :
    (value : DuckValue) (s : Bytes)
    → secret_option value ≡ ok s
    → (value ≡ scalar (varchar_scalar s)) × (s ≢ [])
unfolding secret_option
secret_option-text (scalar (varchar_scalar t)) s h = elim (Bool-cases (is_empty t)) [
  | inl empty ↦ absurd (not_ok (sym (if_true _ _ empty) ∙ h))
  | inr full ↦
      let same : t ≡ s = same_text (sym (if_false _ _ full) ∙ h) in
      (ap (λ k. scalar (varchar_scalar k)) same, λ e. nonempty t full (same ∙ e))
]
  where
    not_ok :
        throw (invalid_input (codes "Splunk ATTACH option SECRET must not be empty")) ≡ ok s → ⊥
    not_ok e = cc

    same_text : ok t ≡ ok s → t ≡ s
    same_text e = cc
secret_option-text (scalar null_scalar) s h = cc
secret_option-text (scalar (boolean_scalar b)) s h = cc
secret_option-text (scalar (other_scalar n)) s h = cc
secret_option-text (varchar_list children) s h = cc
secret_option-text _ s h = cc

module _ (su : StringUtil) where
  -- The options of an attachment whose name is not `SECRET`, in any case.
  abbrev pub NoSecret : List (Bytes × DuckValue) → Type 0
  NoSecret options = All (λ option. su.lower option.0 ≢ codes "secret") options

  -- The last option `SECRET` has the text `name`, which is not empty.
  pub record LastSecret (options : List (Bytes × DuckValue)) (name : Bytes) : Type 0 where
    pub before : List (Bytes × DuckValue)
    pub key : Bytes
    pub after : List (Bytes × DuckValue)
    pub split : options ≡ before ++ (key, scalar (varchar_scalar name)) ∷ after
    pub is_secret : su.lower key ≡ codes "secret"
    pub full : name ≢ []
    pub last : NoSecret after

  -- The secret that the options name: the text of the last `SECRET`, or none.
  abbrev pub SecretGiven : List (Bytes × DuckValue) → Bytes → Type 0
  SecretGiven options name = LastSecret options name ⊎ ((name ≡ []) × NoSecret options)

  read_option-secret :
      (key : Bytes) (value : DuckValue) (o o' : AttachOptions)
      → read_option su (key, value) o ≡ ok o'
      → ((su.lower key ≡ codes "secret")
          × (value ≡ scalar (varchar_scalar o'.secret_name))
          × (o'.secret_name ≢ []))
        ⊎ ((su.lower key ≢ codes "secret") × (o'.secret_name ≡ o.secret_name))
  unfolding read_option
  read_option-secret key value o o' h = elim (Bool-cases (equal (su.lower key) (codes "secret"))) [
    | inl secret ↦
        let (s, p, q) = >>=-eq-ok (secret_option value) _ (sym (if_true _ _ secret) ∙ h) in
        let same : s ≡ o'.secret_name = secret_of q in
        let (text, full) = secret_option-text value s p in
        inl (
          (equal_iff _ _).0 secret,
          text ∙ ap (λ k. scalar (varchar_scalar k)) same,
          λ e. full (same ∙ e),
        )
    | inr other ↦ inr (
      (λ e. let clash : true ≡ false = sym ((equal_iff _ _).1 e) ∙ other in cc),
      kept (equal (su.lower key) (codes "indexes")) (sym (if_false _ _ other) ∙ h),
    )
  ]
    where
      secret_of : {k k' : AttachOptions} → ok k ≡ ok k' → k.secret_name ≡ k'.secret_name
      secret_of e = cc

      kept :
          (b : Bool)
          → (if b
              then (parse_explicit_indexes value >>= λ names.
                  ok (record o { indexes = some names }))
              else throw (invalid_input (codes "Unsupported Splunk ATTACH option")))
            ≡ ok o'
          → o'.secret_name ≡ o.secret_name
      kept true e =
          let (names, p, q) = >>=-eq-ok (parse_explicit_indexes value) _ e in sym (secret_of q)
      kept false e = cc

  read_options-secret :
      (options : List (Bytes × DuckValue)) (o o' : AttachOptions)
      → read_options su options o ≡ ok o'
      → LastSecret options o'.secret_name ⊎ ((o'.secret_name ≡ o.secret_name) × NoSecret options)
  unfolding read_options
  read_options-secret [] o o' h = inr (same h, tt)
    where
      same : ok o ≡ ok o' → o'.secret_name ≡ o.secret_name
      same e = cc
  read_options-secret ((key, value) ∷ options) o o' h =
      let (k, p, q) = >>=-eq-ok (read_option su (key, value) o) _ h in
      elim (read_options-secret options k o' q) [
        | inl l ↦ inl (record {
          before = (key, value) ∷ l.before;
          key = l.key;
          after = l.after;
          split = ap (◌∷◌ (key, value)) l.split;
          is_secret = l.is_secret;
          full = l.full;
          last = l.last;
        })
        | inr (same, none_after) ↦ elim (read_option-secret key value o k p) [
          | inl (secret, text, full) ↦ inl (record {
            before = [];
            key = key;
            after = options;
            split =
                ap (λ v. (key, v) ∷ options)
                  (text ∙ ap (λ n. scalar (varchar_scalar n)) (sym same));
            is_secret = secret;
            full = λ e. full (sym same ∙ e);
            last = none_after;
          })
          | inr (other, kept) ↦ inr (same ∙ kept, (other, none_after))
        ]
      ]

  -- The loop over the options leaves the secret that they name.
  pub read_options-SecretGiven :
      (options : List (Bytes × DuckValue)) (o' : AttachOptions)
      → read_options su options (record { secret_name = []; indexes = none }) ≡ ok o'
      → SecretGiven options o'.secret_name
  read_options-SecretGiven options o' h = read_options-secret options _ o' h
