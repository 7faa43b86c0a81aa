-- ===== src/Logs/Query/Normal.antt =====
-- What the search text of a request looks like.
use duckdb_splunk.Prelude.{
  ℕ, true, ◌≡◌, ◌≢◌, refl, ◌⊎◌, inl, inr, [], ◌∷◌, ◌++◌, Bytes, codes, ◌==◌, arith, Bool-cases,
  lower_byte, sym, ◌∙◌, ap,
}
use duckdb_splunk.External.{StringUtil, StringUtilLaws, FrontTrimmed, BackTrimmed}
use duckdb_splunk.Logs.Query.{begins_with, normalize_trimmed, normalize_search_query}

-- A search that Splunk takes as it stands: a generating command behind a pipe, or `search ` in
-- some spelling of its letters.
abbrev pub IsCommand : StringUtil → Bytes → Type 0
IsCommand su s =
    (begins_with b'|' s ≡ true) ⊎ (su.starts_with (su.lower s) (codes "search ") ≡ true)

abbrev pub IsTrimmed : Bytes → Type 0
IsTrimmed s = FrontTrimmed s × BackTrimmed s

module _ (su : StringUtil) (laws : StringUtilLaws su) where
  lower-search : (s : Bytes) → su.lower (codes "search " ++ s) ≡ codes "search " ++ su.lower s
  unfolding lower_byte
  lower-search s = laws.lower_map _ ∙ ap (◌++◌ (codes "search ")) (sym (laws.lower_map s))

  search_starts :
      (s : Bytes) → su.starts_with (su.lower (codes "search " ++ s)) (codes "search ") ≡ true
  search_starts s = rw (lower-search s) (laws.starts_with_append (codes "search ") (su.lower s))

  normalize_trimmed-IsCommand : (s : Bytes) → IsCommand su (normalize_trimmed su s)
  unfolding normalize_trimmed
  normalize_trimmed-IsCommand [] = inr (search_starts (codes "*"))
  normalize_trimmed-IsCommand (c ∷ s) = ground (arith, search_starts (c ∷ s))

  -- If trimming and lower case work on bytes as documented, then a normalised query begins with
  -- `|`, or in lower case with `search `.
  pub normalize-IsCommand : (query : Bytes) → IsCommand su (normalize_search_query su query)
  unfolding normalize_search_query
  normalize-IsCommand query = normalize_trimmed-IsCommand (su.trim query)

  -- A command that is trimmed goes through unchanged.
  normalize_command :
      (s : Bytes) → IsTrimmed s → IsCommand su s → s ≢ [] → normalize_search_query su s ≡ s
  unfolding normalize_search_query
  normalize_command [] t i n = absurd (n refl)
  normalize_command (c ∷ s) t i n = rw (laws.trim_fixed (c ∷ s) t.0 t.1) (ground arith)

  -- What holds of the text and of the text behind `search ` holds of the result.
  normalize_trimmed_cases :
      (P : Bytes → Type 0) (c : ℕ) (s : Bytes)
      → P (c ∷ s)
      → P (codes "search " ++ (c ∷ s))
      → P (normalize_trimmed su (c ∷ s))
  unfolding normalize_trimmed
  normalize_trimmed_cases P c s kept put = elim (Bool-cases (c == b'|')) [
    | inl piped ↦ rw piped kept
    | inr plain ↦
        rw plain (elim (Bool-cases (su.starts_with (su.lower (c ∷ s)) (codes "search "))) [
          | inl named ↦ rw named kept
          | inr bare ↦ rw bare put
        ])
  ]

  normalize_trimmed-Trimmed : (s : Bytes) → IsTrimmed s → IsTrimmed (normalize_trimmed su s)
  normalize_trimmed-Trimmed [] t = unfold normalize_trimmed in (ground arith, ground arith)
  normalize_trimmed-Trimmed (c ∷ s) t = normalize_trimmed_cases IsTrimmed c s t ((λ e. cc), t.1)

  normalize_trimmed-ne-nil : (s : Bytes) → normalize_trimmed su s ≢ []
  normalize_trimmed-ne-nil [] = unfold normalize_trimmed in (λ e. cc)
  normalize_trimmed-ne-nil (c ∷ s) = normalize_trimmed_cases (λ t. t ≢ []) c s (λ e. cc) (λ e. cc)

  -- If trimming and lower case work on bytes as documented, then normalising a query twice is
  -- normalising it once.
  normalize_idem :
      (query : Bytes)
      → normalize_search_query su (normalize_search_query su query)
        ≡ normalize_search_query su query
  normalize_idem query =
      normalize_command _ trimmed (normalize-IsCommand query)
        (unfold normalize_search_query in normalize_trimmed-ne-nil (su.trim query))
    where
      trimmed : IsTrimmed (normalize_search_query su query)
      trimmed =
          unfold normalize_search_query in
          normalize_trimmed-Trimmed (su.trim query) (laws.trim_front query, laws.trim_back query)
