-- ===== src/Logs/Attributes/Resource.antt =====
-- What stands in the object of `resource_attributes`.
use duckdb_splunk.Prelude.{
  ◌≡◌, refl, Bool, false, Option, none, some, List, [], ◌∷◌, Bytes, codes, equal, if◌then◌else◌,
  arith, ◌∙◌, ap, inl, inr, Option-cases,
}
use duckdb_splunk.External.{Json, str, Members, assoc, Yyjson, YyjsonLaws}
use duckdb_splunk.Logs.Lookup.{get_str}
use duckdb_splunk.Logs.Attributes.{ResourceKeyMapping, resource_keys, add_resource, add_resources}
use duckdb_splunk.Logs.Attributes.Merge.{or_else, or_else_assoc, assoc-concat}

abbrev pub as_json : Option Bytes → Option Json
as_json (some v) = some (str v)
as_json none = none

module _ (y : Yyjson) (laws : YyjsonLaws y) where
  -- A string field of the event, as a JSON value.
  abbrev pub metadata : Json → Bytes → Option Json
  metadata event key = as_json (get_str y (some event) key)

  -- What a list of mappings puts under an attribute name.
  abbrev pub mapped : Json → List ResourceKeyMapping → Bytes → Option Json
  mapped event [] k = none
  mapped event (m ∷ ms) k =
      or_else (if equal m.otlp_key k then metadata event m.splunk_key else none) (mapped event ms k)

  assoc-add_resource :
      (event : Json) (m : ResourceKeyMapping) (k : Bytes) (state : Members × Bool)
      → assoc k (add_resource y event m state).0
        ≡ or_else
            (assoc k state.0)
            (if equal m.otlp_key k then metadata event m.splunk_key else none)
  unfolding add_resource
  assoc-add_resource event m k (root, any) =
      elim (Option-cases (get_str y (some event) m.splunk_key)) [
        | inl missing ↦ rw (missing, add_resource) (ground arith)
        | inr (v, found) ↦
            rw (found, add_resource)
              (ap (assoc k) (laws.mut_obj_add_append root m.otlp_key (str v))
                ∙ assoc-concat k m.otlp_key (str v) root)
      ]

  assoc-add_resources :
      (event : Json) (ms : List ResourceKeyMapping) (k : Bytes) (state : Members × Bool)
      → assoc k (add_resources y event ms state).0 ≡ or_else (assoc k state.0) (mapped event ms k)
  assoc-add_resources event [] k state = unfold add_resources in ground arith
  assoc-add_resources event (m ∷ ms) k state =
      step (assoc-add_resources event ms k (add_resource y event m state))
    where
      step :
          assoc k (add_resources y event ms (add_resource y event m state)).0
            ≡ or_else (assoc k (add_resource y event m state).0) (mapped event ms k)
          → assoc k (add_resources y event (m ∷ ms) state).0
            ≡ or_else (assoc k state.0) (mapped event (m ∷ ms) k)
      step ih =
          unfold add_resources in
          ih
          ∙ ap (λ o. or_else o (mapped event ms k)) (assoc-add_resource event m k state)
          ∙ or_else_assoc (assoc k state.0) _ (mapped event ms k)

  -- The object of `resource_attributes`.
  abbrev pub resource_root : Json → Members
  resource_root event = (add_resources y event resource_keys ([], false)).0

  assoc-resource_root :
      (event : Json) (k : Bytes) → assoc k (resource_root event) ≡ mapped event resource_keys k
  unfolding assoc
  assoc-resource_root event k = assoc-add_resources event resource_keys k ([], false)

  or_else-none : (o : Option Json) → or_else o none ≡ o
  or_else-none (some j) = refl
  or_else-none none = refl

  -- Under the same laws of yyjson, the object of `resource_attributes` holds the event's
  -- strings `host`, `source`, `sourcetype`, `index` and `splunk_server` under `host.name`,
  -- `com.splunk.source`, `com.splunk.sourcetype`, `com.splunk.index` and `com.splunk.server`,
  -- and nothing there where the event has no such string.
  pub resource_attributes-mapping :
      (event : Json)
      → (assoc (codes "host.name") (resource_root event) ≡ metadata event (codes "host"))
        × (assoc (codes "com.splunk.source") (resource_root event)
            ≡ metadata event (codes "source"))
        × (assoc (codes "com.splunk.sourcetype") (resource_root event)
            ≡ metadata event (codes "sourcetype"))
        × (assoc (codes "com.splunk.index") (resource_root event) ≡ metadata event (codes "index"))
        × (assoc (codes "com.splunk.server") (resource_root event)
            ≡ metadata event (codes "splunk_server"))
  unfolding equal
  resource_attributes-mapping event = (
    assoc-resource_root event _ ∙ or_else-none _,
    assoc-resource_root event _ ∙ or_else-none _,
    assoc-resource_root event _ ∙ or_else-none _,
    assoc-resource_root event _ ∙ or_else-none _,
    assoc-resource_root event _ ∙ or_else-none _,
  )
