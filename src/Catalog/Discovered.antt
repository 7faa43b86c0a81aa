-- ===== src/Catalog/Discovered.antt =====
-- The index names that a discovery answers with.
mod Names
use duckdb_splunk.Prelude.{
  ◌≡◌, ◌≢◌, ◌↔◌, ◌⊎◌, refl, ap, ◌∙◌, sym, inl, inr, Option, none, some, List, [], ◌∷◌, Bytes, codes,
  is_empty, c_string, All, Member, here, there, equal, equal_iff, true, if◌then◌else◌, Bool-cases,
  Option-cases, if_true, if_false, subst,
}
use duckdb_splunk.External.{Json, str, arr, obj, Fields, Items, elements, Yyjson}
use duckdb_splunk.Errors.{bad_discovery, ok, throw}
use duckdb_splunk.Catalog.{
  is_seen, discovered_name, discovered_names, entry_names, entry_of, parse_discovered_indexes,
}
use duckdb_splunk.Catalog.Indexes.{Fresh, once, nonempty, Fresh-once, same-once}
use duckdb_splunk.Catalog.Discovered.Names.{
  SomeHasName, entry_texts, entry_texts-full, entry_texts-SomeHasName, same-Member,
}

module _ (y : Yyjson) where
  discovered_names-once :
      (seen : List Bytes) (entries : List Json)
      → discovered_names y seen entries ≡ once seen (entry_texts y entries)
  unfolding discovered_names
  discovered_names-once seen [] = refl
  discovered_names-once seen (entry ∷ entries) = elim (Option-cases (discovered_name y entry)) [
    | inl missing ↦
        rw (missing, discovered_names, once, entry_texts) (discovered_names-once seen entries)
    | inr (name, found) ↦
        rw (found, discovered_names, once, entry_texts)
          (elim (Bool-cases (is_seen name seen)) [
            | inl old ↦ rw old (discovered_names-once seen entries)
            | inr new ↦ rw new (ap (◌∷◌ name) (discovered_names-once (name ∷ seen) entries))
          ])
  ]

  -- The names of an answer: those of the entries of its document, each once, none empty.
  pub record IsDiscovered (response : Bytes) (names : List Bytes) : Type 0 where
    pub root : Fields
    pub entries : Items
    pub document : y.read response ≡ some (obj root)
    pub listed : y.obj_get (obj root) (codes "entry") ≡ some (arr entries)
    pub fresh : Fresh [] names
    pub same_names : (n : Bytes) → Member n names ↔ SomeHasName y n (elements (arr entries))

  entry_names-ok :
      (o : Option Json) (names : List Bytes)
      → entry_names y o ≡ ok names
      → (js : Items) × (o ≡ some (arr js)) × (names ≡ discovered_names y [] (elements (arr js)))
  unfolding entry_names
  entry_names-ok (some (arr js)) names h = (js, refl, cc)
  entry_names-ok none names h = cc
  entry_names-ok (some _) names h = cc

  read_names :
      (o : Option Json) (names : List Bytes)
      → (elim o [
        | none ↦ throw (bad_discovery (codes "returned invalid JSON"))
        | some root ↦ entry_names y (entry_of y root)
      ])
        ≡ ok names
      → (root : Json) × (o ≡ some root) × (entry_names y (entry_of y root) ≡ ok names)
  read_names none names h = cc
  read_names (some root) names h = (root, refl, h)

  -- The array stands in an object, under `entry`.
  listed_in :
      (root : Json) (js : Items)
      → entry_of y root ≡ some (arr js)
      → (fs : Fields) × (root ≡ obj fs) × (y.obj_get (obj fs) (codes "entry") ≡ some (arr js))
  unfolding entry_of
  listed_in (obj fs) js h = (fs, refl, h)
  listed_in _ js h = cc

  -- If the answer of a discovery is accepted, then it is an object with an array under `entry`,
  -- and the names are exactly the strings that objects of the array have under `name`, each up
  -- to its first NUL, that are not empty, each once.
  pub parse_discovered_indexes-IsDiscovered :
      (response : Bytes) (names : List Bytes)
      → parse_discovered_indexes y response ≡ ok names
      → IsDiscovered response names
  unfolding parse_discovered_indexes
  parse_discovered_indexes-IsDiscovered response names h =
      let (root, p, h') = read_names (y.read response) names h in
      let (js, q, e) = entry_names-ok (entry_of y root) names h' in
      let (fs, p', q') = listed_in root js q in
      let texts = entry_texts y (elements (arr js)) in
      let e' = e ∙ discovered_names-once [] (elements (arr js)) in
      record {
        root = fs;
        entries = js;
        document = p ∙ ap some p';
        listed = q';
        fresh =
            subst (Fresh []) (sym e')
              (Fresh-once [] texts (entry_texts-full y (elements (arr js))));
        same_names = λ n.
            let kept = same-Member n names texts (ap (is_seen n) e' ∙ same-once n texts) in
            let named = entry_texts-SomeHasName y n (elements (arr js)) in
            (λ m. named.0 (kept.0 m), λ h. kept.1 (named.1 h));
      }
