-- ===== src/Logs/Lookup/First.antt =====
-- The lookup finds the first string, sources before keys.
use duckdb_splunk.Prelude.{◌≡◌, refl, Option, none, some, List, [], ◌∷◌, Bytes, All}
use duckdb_splunk.External.{Json, Yyjson}
use duckdb_splunk.Logs.Lookup.{get_str, lookup_keys, lookup_str}

module _ (y : Yyjson) where
  -- No key of the list leads to a string in the source.
  abbrev pub Misses : List Bytes → Option Json → Type 0
  Misses keys source = All (λ key. get_str y source key ≡ none) keys

  -- `v` stands in `source` under one of the keys, and under none in front of that.
  pub data FirstKey (source : Option Json) (v : Bytes) : List Bytes → Type 0 where
    found :
        (key : Bytes) (keys : List Bytes)
        → get_str y source key ≡ some v
        → FirstKey source v (key ∷ keys)
    later :
        {key : Bytes} {keys : List Bytes}
        → get_str y source key ≡ none
        → FirstKey source v keys
        → FirstKey source v (key ∷ keys)

  -- `v` is the first match of one source, and the sources in front of that have none.
  pub data FirstMatch (keys : List Bytes) (v : Bytes) : List (Option Json) → Type 0 where
    in_source :
        (source : Option Json) (sources : List (Option Json))
        → FirstKey source v keys
        → FirstMatch keys v (source ∷ sources)
    further :
        {source : Option Json} {sources : List (Option Json)}
        → Misses keys source
        → FirstMatch keys v sources
        → FirstMatch keys v (source ∷ sources)

  abbrev KeysResult : Option Json → List Bytes → Option Bytes → Type 0
  KeysResult source keys none = Misses keys source
  KeysResult source keys (some v) = FirstKey source v keys

  -- What each result of the lookup says.
  abbrev pub LookupResult : List (Option Json) → List Bytes → Option Bytes → Type 0
  LookupResult sources keys none = All (Misses keys) sources
  LookupResult sources keys (some v) = FirstMatch keys v sources

  KeysResult-cons :
      (source : Option Json) (key : Bytes) (keys : List Bytes) (r s : Option Bytes)
      → get_str y source key ≡ r
      → KeysResult source keys s
      → KeysResult source (key ∷ keys) (elim r [ some v ↦ some v | none ↦ s ])
  KeysResult-cons source key keys (some v) s e h = found key keys e
  KeysResult-cons source key keys none none e h = (e, h)
  KeysResult-cons source key keys none (some v) e h = later e h

  lookup_keys-KeysResult :
      (source : Option Json) (keys : List Bytes)
      → KeysResult source keys (lookup_keys y source keys)
  unfolding lookup_keys
  lookup_keys-KeysResult source [] = tt
  lookup_keys-KeysResult source (key ∷ keys) =
      KeysResult-cons source key keys (get_str y source key) (lookup_keys y source keys) refl
        (lookup_keys-KeysResult source keys)

  LookupResult-cons :
      (source : Option Json) (sources : List (Option Json)) (keys : List Bytes) (r s : Option Bytes)
      → KeysResult source keys r
      → LookupResult sources keys s
      → LookupResult (source ∷ sources) keys (elim r [ some v ↦ some v | none ↦ s ])
  LookupResult-cons source sources keys (some v) s k h = in_source source sources k
  LookupResult-cons source sources keys none none k h = (k, h)
  LookupResult-cons source sources keys none (some v) k h = further k h

  -- If the lookup returns a string, then it stands in one of the sources under one of the keys,
  -- under none of the keys in front of that in the same source, and under no key in the sources
  -- in front; if it returns none, then no source has a string under any of the keys.
  pub lookup_str-LookupResult :
      (sources : List (Option Json)) (keys : List Bytes)
      → LookupResult sources keys (lookup_str y sources keys)
  unfolding lookup_str
  lookup_str-LookupResult [] keys = tt
  lookup_str-LookupResult (source ∷ sources) keys =
      LookupResult-cons source sources keys (lookup_keys y source keys) (lookup_str y sources keys)
        (lookup_keys-KeysResult source keys) (lookup_str-LookupResult sources keys)
