-- ===== src/Secret/Options.antt =====
-- What a secret keeps of its options: the last value of each known one.
use duckdb_splunk.Prelude.{
  ◌≡◌, refl, ap, ◌∙◌, Option, none, some, List, [], ◌∷◌, Bytes, equal, equal_iff, if◌then◌else◌,
  arith,
}
use duckdb_splunk.External.{StringUtil, DuckValue}
use duckdb_splunk.Secret.{
  SecretMap, is_known_option, set_value, try_get_value, copy_option, copy_options,
  create_splunk_secret, Secret,
}

abbrev pub or_before : Option DuckValue → Option DuckValue → Option DuckValue
or_before (some v) before = some v
or_before none before = before

module _ (su : StringUtil) where
  -- The last option whose name in lower case is `key`.
  abbrev pub last_option : Bytes → List (Bytes × DuckValue) → Option DuckValue
  last_option key [] = none
  last_option key ((name, value) ∷ options) =
      or_before (last_option key options) (if equal (su.lower name) key then some value else none)

  try_get-set_value :
      (key k : Bytes) (value : DuckValue) (m : SecretMap)
      → try_get_value key (set_value k value m)
        ≡ (if equal k key then some value else try_get_value key m)
  unfolding try_get_value set_value
  try_get-set_value key k value [] = refl
  try_get-set_value key k value ((j, v) ∷ m) =
      ground
        (arith, try_get-set_value key k value m, equal_iff j k, equal_iff k key, equal_iff j key)

  -- What the secret holds under a key, above what it held before.
  abbrev kept : Bytes → Option DuckValue → Option DuckValue → Option DuckValue
  kept key found before = if is_known_option key then or_before found before else before

  try_get-copy_option :
      (key name : Bytes) (value : DuckValue) (m : SecretMap)
      → try_get_value key (copy_option su (name, value) m)
        ≡ kept key (if equal (su.lower name) key then some value else none) (try_get_value key m)
  unfolding copy_option
  try_get-copy_option key name value m =
      ground (arith, try_get-set_value key (su.lower name) value m, equal_iff (su.lower name) key)

  kept-kept :
      (key : Bytes) (a b c : Option DuckValue)
      → kept key a (kept key b c) ≡ kept key (or_before a b) c
  kept-kept key (some v) b c = ground arith
  kept-kept key none b c = ground arith

  try_get-copy_options :
      (key : Bytes) (options : List (Bytes × DuckValue)) (m : SecretMap)
      → try_get_value key (copy_options su options m)
        ≡ kept key (last_option key options) (try_get_value key m)
  unfolding copy_options
  try_get-copy_options key [] m = ground arith
  try_get-copy_options key ((name, value) ∷ options) m =
      try_get-copy_options key options (copy_option su (name, value) m)
      ∙ ap (kept key (last_option key options)) (try_get-copy_option key name value m)
      ∙ kept-kept key (last_option key options) _ (try_get_value key m)

  abbrev pub value_of : Bytes → Secret → Option DuckValue
  value_of key s = elim s.secret_map [ none ↦ none | some m ↦ try_get_value key m ]

  -- A new secret holds, under each of the six known keys, the value of the last option whose
  -- name in lower case is that key, and nothing under any other key.
  pub value_of-create_splunk_secret :
      (scope : List Bytes) (name key : Bytes) (options : List (Bytes × DuckValue))
      → value_of key (create_splunk_secret su scope name options)
        ≡ (if is_known_option key then last_option key options else none)
  unfolding create_splunk_secret try_get_value
  value_of-create_splunk_secret scope name key options =
      try_get-copy_options key options [] ∙ ground arith
