-- ===== src/Logs/Attributes.antt =====
-- src/logs_table.cpp: kResourceKeys, IsResourceKey, IsInternalField, BuildResourceAttributes,
-- CopyNonInternalFields and BuildLogAttributes.
pub mod Merge
pub mod Resource
use duckdb_splunk.Prelude.{
  ℕ, Bool, true, false, ◌||◌, Option, none, some, List, [], ◌∷◌, Bytes, codes, c_string, equal,
  ◌==◌, if◌then◌else◌,
}
use duckdb_splunk.External.{Json, str, obj, Members, members, Yyjson}
use duckdb_splunk.Logs.Lookup.{get_str}

pub record ResourceKeyMapping : Type 0 where
  pub splunk_key : Bytes
  pub otlp_key : Bytes

abbrev mapping : Bytes → Bytes → ResourceKeyMapping
mapping s o = record { splunk_key = s; otlp_key = o }

-- `kResourceKeys`.
abbrev pub resource_keys : List ResourceKeyMapping
resource_keys =
    mapping (codes "host") (codes "host.name")
    ∷ mapping (codes "source") (codes "com.splunk.source")
    ∷ mapping (codes "sourcetype") (codes "com.splunk.sourcetype")
    ∷ mapping (codes "index") (codes "com.splunk.index")
    ∷ mapping (codes "splunk_server") (codes "com.splunk.server")
    ∷ []

is_resource_key_in : List ResourceKeyMapping → Bytes → Bool
is_resource_key_in [] key = false
is_resource_key_in (m ∷ ms) key = if equal key m.splunk_key then true else is_resource_key_in ms key

-- `IsResourceKey`.
unfoldable pub is_resource_key : Bytes → Bool
unfolding is_resource_key_in
is_resource_key = is_resource_key_in resource_keys

-- `kNoise`.
abbrev pub noise : List Bytes
noise = codes "linecount" ∷ codes "punct" ∷ codes "eventtype" ∷ []

is_noise_in : List Bytes → Bytes → Bool
is_noise_in [] key = false
is_noise_in (n ∷ ns) key = if equal key n then true else is_noise_in ns key

-- `key[0] == '_'`; the first byte of the empty string is its NUL.
abbrev pub is_underscored : Bytes → Bool
is_underscored [] = false
is_underscored (c ∷ s) = c == b'_'

-- `IsInternalField`, of a key that is not null.
unfoldable pub is_internal_field : Bytes → Bool
unfolding is_noise_in
is_internal_field key =
    if is_underscored key then true else if is_resource_key key then true else is_noise_in noise key

module _ (y : Yyjson) where
  -- One round of the loop of `BuildResourceAttributes`: the object, and the flag `any`.
  unfoldable pub add_resource : Json → ResourceKeyMapping → Members × Bool → Members × Bool
  add_resource event m (root, any) = elim (get_str y (some event) m.splunk_key) [
    | some value ↦ (y.mut_obj_add root m.otlp_key (str value), true)
    | none ↦ (root, any)
  ]

  unfoldable pub add_resources : Json → List ResourceKeyMapping → Members × Bool → Members × Bool
  add_resources event [] state = state
  add_resources event (m ∷ ms) state = add_resources event ms (add_resource event m state)

  -- `json ? string(json.get()) : string()` where a field was added, and the empty text otherwise.
  unfoldable pub write_attributes : Members × Bool → Bytes
  write_attributes (root, false) = []
  write_attributes (root, true) = elim (y.mut_write root) [ some json ↦ json | none ↦ [] ]

  -- `BuildResourceAttributes`.
  unfoldable pub build_resource_attributes : Json → Bytes
  build_resource_attributes event = write_attributes (add_resources event resource_keys ([], false))

  -- One round of the loop of `CopyNonInternalFields`: the object, and the flag `any`.
  unfoldable pub copy_field : Bytes → Json → Members × Bool → Members × Bool
  copy_field key val (root, any) =
      let key_str = c_string key in
      if is_internal_field key_str then (root, any) else elim (y.mut_obj_get root key_str) [
        | some _ ↦ (root, any)
        | none ↦ (y.mut_obj_add root key_str val, true)
      ]

  unfoldable pub copy_fields : Members → Members × Bool → Members × Bool
  copy_fields [] state = state
  copy_fields ((key, val) ∷ fs) state = copy_fields fs (copy_field key val state)

  -- `CopyNonInternalFields`; what is no object copies nothing.
  unfoldable pub copy_non_internal_fields : Members → Option Json → Members × Bool
  copy_non_internal_fields root (some (obj fs)) = copy_fields (members (obj fs)) (root, false)
  copy_non_internal_fields root _ = (root, false)

  -- The object under construction in `BuildLogAttributes`, and whether it has a field.
  unfoldable pub merge_log_attributes : Json → Option Json → Members × Bool
  merge_log_attributes event raw_obj =
      let (root, any) = copy_non_internal_fields [] (some event) in
      let (root', any') = copy_non_internal_fields root raw_obj in (root', any' || any)

  -- `BuildLogAttributes`.
  unfoldable pub build_log_attributes : Json → Option Json → Bytes
  build_log_attributes event raw_obj = write_attributes (merge_log_attributes event raw_obj)
