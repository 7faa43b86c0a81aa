-- ===== src/Logs/Query/Index.antt =====
-- The search text that a table of a catalog sends.
use duckdb_splunk.Prelude.{
  ◌≡◌, ◌≢◌, ap, ◌∙◌, sym, inl, inr, true, false, [], ◌∷◌, ◌++◌, Bytes, codes, arith, Bool-cases,
  lower_byte, if_false, map,
}
use duckdb_splunk.External.{StringUtil, StringUtilLaws, BackTrimmed}
use duckdb_splunk.Logs.Query.{
  begins_with, normalize_trimmed, normalize_search_query, escape_index, build_index_query,
}

-- A text that ends in a quote.
BackTrimmed-quote : (s : Bytes) → BackTrimmed (s ++ codes "\"")
BackTrimmed-quote [] = ground arith
BackTrimmed-quote (c ∷ []) = ground arith
BackTrimmed-quote (c ∷ d ∷ s) = BackTrimmed-quote (d ∷ s)

module _ (su : StringUtil) (laws : StringUtilLaws su) where
  -- No index restriction reads as a command.
  not_command : (s : Bytes) → su.starts_with (su.lower (b'i' ∷ s)) (codes "search ") ≡ false
  unfolding lower_byte
  not_command s = elim (Bool-cases (su.starts_with (su.lower (b'i' ∷ s)) (codes "search "))) [
    | inr bare ↦ bare
    | inl named ↦
        let (rest, split) = laws.starts_with_split _ (codes "search ") named in
        absurd (
          heads_differ (map lower_byte s) (codes "earch " ++ rest)
            (sym (laws.lower_map (b'i' ∷ s)) ∙ split))
  ]
    where
      heads_differ : (s t : Bytes) → (b'i' ∷ s) ≢ (b's' ∷ t)
      heads_differ s t e = let clash : true ≡ false = ap (begins_with b'i') e in cc

  normalize_trimmed-index :
      (s : Bytes) → normalize_trimmed su (b'i' ∷ s) ≡ codes "search " ++ (b'i' ∷ s)
  unfolding normalize_trimmed
  normalize_trimmed-index s = if_false _ _ (not_command s)

  -- The query of a table becomes a search for just that.
  pub normalize-build_index_query :
      (name : Bytes)
      → normalize_search_query su (build_index_query name)
        ≡ codes "search " ++ build_index_query name
  unfolding normalize_search_query build_index_query
  normalize-build_index_query name =
      ap (normalize_trimmed su) (
        laws.trim_fixed (build_index_query name) (ground arith)
          (BackTrimmed-quote (codes "index=\"" ++ escape_index name)))
      ∙ normalize_trimmed-index _
