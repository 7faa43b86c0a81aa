-- ===== src/Logs/Attributes/Merge.antt =====
-- What stands in the object of `log_attributes`.
use mathlib.Core.List.{concat-ne-nil}
use duckdb_splunk.Prelude.{
  ◌≡◌, ◌≢◌, refl, Bool, true, false, ◌||◌, Option, none, some, [], ◌∷◌, ◌++◌, Bytes, c_string,
  equal, equal_iff, if◌then◌else◌, arith, inl, inr, ◌⊎◌, ◌∙◌, ap, sym, subst,
}
use duckdb_splunk.External.{Json, obj, Members, members, assoc, Yyjson, YyjsonLaws}
use duckdb_splunk.Logs.Attributes.{
  is_internal_field, copy_field, copy_fields, copy_non_internal_fields, merge_log_attributes,
  write_attributes, build_log_attributes,
}

-- The first value whose key, read as a C string, is `k`.
unfoldable pub assoc_c : Bytes → Members → Option Json
assoc_c k [] = none
assoc_c k ((j, v) ∷ ms) = if equal (c_string j) k then some v else assoc_c k ms

abbrev pub or_else {ℓ} : {A : Type ℓ} → Option A → Option A → Option A
or_else (some a) o = some a
or_else none o = o

pub or_else_assoc {ℓ} :
    {A : Type ℓ} (a b c : Option A) → or_else (or_else a b) c ≡ or_else a (or_else b c)
or_else_assoc (some a) b c = refl
or_else_assoc none b c = refl

-- The value under `k` among the members that may be copied.
abbrev pub public_field : Bytes → Members → Option Json
public_field k ms = if is_internal_field k then none else assoc_c k ms

pub assoc-concat :
    (k j : Bytes) (v : Json) (ms : Members)
    → assoc k (ms ++ (j, v) ∷ []) ≡ or_else (assoc k ms) (if equal j k then some v else none)
unfolding assoc
assoc-concat k j v [] = refl
assoc-concat k j v ((i, w) ∷ ms) = ground (arith, assoc-concat k j v ms)

assoc-nil : (k : Bytes) → assoc k [] ≡ none
unfolding assoc
assoc-nil k = refl

-- Each key once.
abbrev pub KeysOnce : Members → Type 0
KeysOnce [] = Unit {0}
KeysOnce ((k, v) ∷ ms) = (assoc k ms ≡ none) × KeysOnce ms

KeysOnce-concat :
    (k : Bytes) (v : Json) (ms : Members)
    → KeysOnce ms
    → assoc k ms ≡ none
    → KeysOnce (ms ++ (k, v) ∷ [])
unfolding assoc
KeysOnce-concat k v [] h e = (refl, tt)
KeysOnce-concat k v ((j, w) ∷ ms) h e =
    ground (arith, KeysOnce-concat k v ms h.1, assoc-concat j k v ms, equal_iff k j, equal_iff j k)

module _ (y : Yyjson) (laws : YyjsonLaws y) where
  assoc-copy_field :
      (k key : Bytes) (val : Json) (root : Members) (any : Bool)
      → assoc k (copy_field y key val (root, any)).0
        ≡ or_else (assoc k root) (public_field k ((key, val) ∷ []))
  unfolding copy_field assoc_c
  assoc-copy_field k key val root any = ground (
    arith,
    equal_iff (c_string key) k,
    laws.mut_obj_get_assoc root (c_string key),
    laws.mut_obj_add_append root (c_string key) val,
    assoc-concat k (c_string key) val root,
  )

  public_field-cons :
      (k key : Bytes) (val : Json) (ms : Members)
      → or_else (public_field k ((key, val) ∷ [])) (public_field k ms)
        ≡ public_field k ((key, val) ∷ ms)
  unfolding assoc_c
  public_field-cons k key val ms = ground arith

  assoc-copy_fields :
      (k : Bytes) (ms : Members) (state : Members × Bool)
      → assoc k (copy_fields y ms state).0 ≡ or_else (assoc k state.0) (public_field k ms)
  assoc-copy_fields k [] state = unfold copy_fields assoc_c in ground arith
  assoc-copy_fields k ((key, val) ∷ ms) (root, any) =
      step (assoc-copy_fields k ms (copy_field y key val (root, any)))
    where
      step :
          assoc k (copy_fields y ms (copy_field y key val (root, any))).0
            ≡ or_else (assoc k (copy_field y key val (root, any)).0) (public_field k ms)
          → assoc k (copy_fields y ((key, val) ∷ ms) (root, any)).0
            ≡ or_else (assoc k root) (public_field k ((key, val) ∷ ms))
      step ih =
          unfold copy_fields in
          ih
          ∙ ap (λ o. or_else o (public_field k ms)) (assoc-copy_field k key val root any)
          ∙ or_else_assoc (assoc k root) _ (public_field k ms)
          ∙ ap (or_else (assoc k root)) (public_field-cons k key val ms)

  -- The members that a source has to offer: none, unless it is an object.
  abbrev pub source_members : Option Json → Members
  source_members none = []
  source_members (some j) = members j

  copy_non_internal_fields-members :
      (root : Members) (source : Option Json)
      → copy_non_internal_fields y root source ≡ copy_fields y (source_members source) (root, false)
  unfolding copy_non_internal_fields copy_fields members
  copy_non_internal_fields-members root none = refl
  copy_non_internal_fields-members root (some (obj fs)) = refl
  copy_non_internal_fields-members root (some _) = refl

  -- The object: the event's fields, and behind them those of the payload.
  abbrev merged : Json → Option Json → Members
  merged event raw_obj = (merge_log_attributes y event raw_obj).0

  merged-copy_fields :
      (event : Json) (raw_obj : Option Json)
      → merged event raw_obj
        ≡ (copy_fields y
            (source_members raw_obj)
            ((copy_fields y (members event) ([], false)).0, false)).0
  unfolding merge_log_attributes
  merged-copy_fields event raw_obj =
      ap (λ state. (copy_non_internal_fields y state.0 raw_obj).0)
        (copy_non_internal_fields-members [] (some event))
      ∙ ap (λ state. state.0) (copy_non_internal_fields-members _ raw_obj)

  or_else-if :
      (b : Bool) (o p : Option Json)
      → or_else (if b then none else o) (if b then none else p) ≡ (if b then none else or_else o p)
  or_else-if true o p = refl
  or_else-if false o p = refl

  -- If yyjson's lookups find the first member with a key and additions append, then under every
  -- key the object of `log_attributes` holds nothing where the key is internal, and otherwise
  -- the event's own first value, or the payload's first value where the event has none.
  pub assoc-merged :
      (event : Json) (raw_obj : Option Json) (k : Bytes)
      → assoc k (merge_log_attributes y event raw_obj).0 ≡ (
          if is_internal_field k
          then none
          else or_else (assoc_c k (members event)) (assoc_c k (source_members raw_obj)))
  assoc-merged event raw_obj k =
      ap (assoc k) (merged-copy_fields event raw_obj)
      ∙ assoc-copy_fields k (source_members raw_obj) _
      ∙ ap (λ o. or_else o (public_field k (source_members raw_obj)))
          (assoc-copy_fields k (members event) ([], false)
            ∙ ap (λ o. or_else o (public_field k (members event))) (assoc-nil k))
      ∙ or_else-if (is_internal_field k) _ _

  KeysOnce-copy_field :
      (key : Bytes) (val : Json) (root : Members) (any : Bool)
      → KeysOnce root
      → KeysOnce (copy_field y key val (root, any)).0
  unfolding copy_field
  KeysOnce-copy_field key val root any h = ground (
    arith,
    laws.mut_obj_get_assoc root (c_string key),
    laws.mut_obj_add_append root (c_string key) val,
    KeysOnce-concat (c_string key) val root h,
  )

  KeysOnce-copy_fields :
      (ms : Members) (state : Members × Bool)
      → KeysOnce state.0
      → KeysOnce (copy_fields y ms state).0
  unfolding copy_fields
  KeysOnce-copy_fields [] state h = h
  KeysOnce-copy_fields ((key, val) ∷ ms) state h =
      KeysOnce-copy_fields ms (copy_field y key val state)
        (KeysOnce-copy_field key val state.0 state.1 h)

  -- Under the same laws of yyjson, the object of `log_attributes` holds each key at most once,
  -- even if the event or the payload repeat a key or share one.
  pub KeysOnce-merged :
      (event : Json) (raw_obj : Option Json) → KeysOnce (merge_log_attributes y event raw_obj).0
  KeysOnce-merged event raw_obj = subst KeysOnce (sym (merged-copy_fields event raw_obj)) (
      KeysOnce-copy_fields (source_members raw_obj) _
        (KeysOnce-copy_fields (members event) ([], false) tt))

  -- The flag says whether a field was added to `before`.
  abbrev Flags : Members → Members × Bool → Type 0
  Flags before (root, false) = root ≡ before
  Flags before (root, true) = root ≢ []

  copy_field-cases :
      (key : Bytes) (val : Json) (root : Members) (any : Bool)
      → (copy_field y key val (root, any) ≡ (root, any))
        ⊎ (copy_field y key val (root, any) ≡ (root ++ (c_string key, val) ∷ [], true))
  unfolding copy_field
  copy_field-cases key val root any =
      ground (arith, laws.mut_obj_add_append root (c_string key) val)

  Flags-copy_field :
      (before : Members) (key : Bytes) (val : Json) (root : Members) (any : Bool)
      → Flags before (root, any)
      → Flags before (copy_field y key val (root, any))
  Flags-copy_field before key val root any h = elim (copy_field-cases key val root any) [
    | inl same ↦ subst (Flags before) (sym same) h
    | inr added ↦ subst (Flags before) (sym added) (concat-ne-nil (c_string key, val) root)
  ]

  Flags-copy_fields :
      (before : Members) (ms : Members) (state : Members × Bool)
      → Flags before state
      → Flags before (copy_fields y ms state)
  unfolding copy_fields
  Flags-copy_fields before [] state h = h
  Flags-copy_fields before ((key, val) ∷ ms) state h =
      Flags-copy_fields before ms (copy_field y key val state)
        (Flags-copy_field before key val state.0 state.1 h)

  Flags-copy_non_internal_fields :
      (root : Members) (source : Option Json) → Flags root (copy_non_internal_fields y root source)
  Flags-copy_non_internal_fields root source =
      subst (Flags root) (sym (copy_non_internal_fields-members root source))
        (Flags-copy_fields root (source_members source) (root, false) refl)

  Flags-join :
      (root root' : Members) (any any' : Bool)
      → Flags [] (root, any)
      → Flags root (root', any')
      → Flags [] (root', any' || any)
  Flags-join root root' any true h h' = h'
  Flags-join root root' true false h h' = λ e. h (sym h' ∙ e)
  Flags-join root root' false false h h' = h' ∙ h

  -- The text of an object that has a field.
  abbrev pub object_text : Members → Bytes
  object_text [] = []
  object_text (m ∷ ms) = elim (y.mut_write (m ∷ ms)) [ some json ↦ json | none ↦ [] ]

  write_attributes-object_text :
      (state : Members × Bool) → Flags [] state → write_attributes y state ≡ object_text state.0
  unfolding write_attributes
  write_attributes-object_text ([], true) h = absurd (h refl)
  write_attributes-object_text (m ∷ ms, true) h = refl
  write_attributes-object_text (root, false) h = rw h

  -- Under the same laws of yyjson, `log_attributes` is the empty text if the merged object has
  -- no field, and what yyjson writes for it otherwise.
  build_log_attributes-object_text :
      (event : Json) (raw_obj : Option Json)
      → build_log_attributes y event raw_obj ≡ object_text (merge_log_attributes y event raw_obj).0
  unfolding build_log_attributes merge_log_attributes
  build_log_attributes-object_text event raw_obj = write_attributes-object_text _ (
      Flags-join _ _ _ _ (Flags-copy_non_internal_fields [] (some event))
        (Flags-copy_non_internal_fields _ raw_obj))
