-- ===== src/Catalog/Indexes.antt =====
-- The index names of a catalog: each once, and none empty.
use duckdb_splunk.Prelude.{
  ◌≡◌, ◌≢◌, ◌⊎◌, ◌||◌, refl, ap, ◌∙◌, sym, inl, inr, Bool, true, false, List, [], ◌∷◌, Bytes, codes,
  equal, equal_iff, is_empty, All, if◌then◌else◌, arith, Bool-cases, ap₂, if_true, if_false, subst,
}
use duckdb_splunk.External.{
  Scalar, varchar_scalar, null_scalar, boolean_scalar, other_scalar, DuckValue, scalar,
  varchar_list, other_list,
}
use duckdb_splunk.Errors.{invalid_input, Result, ok, throw, >>=-eq-ok}
use duckdb_splunk.Catalog.{
  is_seen, push_front, explicit_name, explicit_names, parse_explicit_indexes,
}

-- Every name once, none empty, and none of those in `seen`.
abbrev pub Fresh : List Bytes → List Bytes → Type 0
Fresh seen [] = Unit {0}
Fresh seen (name ∷ names) = (name ≢ []) × (is_seen name seen ≡ false) × Fresh (name ∷ seen) names

-- The texts among the children, in order and each once.
abbrev pub once : List Bytes → List Bytes → List Bytes
once seen [] = []
once seen (name ∷ names) =
    let repeated = once seen names in
    let added = name ∷ once (name ∷ seen) names in if is_seen name seen then repeated else added

pub nonempty : (s : Bytes) → is_empty s ≡ false → s ≢ []
nonempty [] h e = absurd (let h' : true ≡ false = h in cc)
nonempty (c ∷ s) h e = cc

pub Fresh-once :
    (seen names : List Bytes) → All (λ name. name ≢ []) names → Fresh seen (once seen names)
Fresh-once seen [] h = tt
Fresh-once seen (name ∷ names) h = elim (Bool-cases (is_seen name seen)) [
  | inl old ↦ subst (Fresh seen) (sym (if_true _ _ old)) (Fresh-once seen names h.1)
  | inr new ↦
      subst (Fresh seen) (sym (if_false _ _ new)) (h.0, new, Fresh-once (name ∷ seen) names h.1)
]

-- The children that `names` are the texts of.
abbrev pub as_children : List Bytes → List Scalar
as_children [] = []
as_children (name ∷ names) = varchar_scalar name ∷ as_children names

explicit_name-ok :
    (child : Scalar) (name : Bytes)
    → explicit_name child ≡ ok name
    → (child ≡ varchar_scalar name) × (name ≢ [])
unfolding explicit_name
explicit_name-ok (varchar_scalar s) name h = elim (Bool-cases (is_empty s)) [
  | inl empty ↦ absurd (not_ok (sym (if_true _ _ empty) ∙ h))
  | inr full ↦
      let same : s ≡ name = same_name (sym (if_false _ _ full) ∙ h) in
      (ap varchar_scalar same, subst (λ t. t ≢ []) same (nonempty s full))
]
  where
    not_ok :
        throw (
            invalid_input (codes "Splunk ATTACH option INDEXES must not contain empty index names"))
          ≡ ok name
        → ⊥
    not_ok h = cc

    same_name : ok s ≡ ok name → s ≡ name
    same_name h = cc
explicit_name-ok null_scalar name h = cc
explicit_name-ok (boolean_scalar b) name h = cc
explicit_name-ok (other_scalar n) name h = cc

-- No name is lost.
is_seen-once :
    (n : Bytes) (seen names : List Bytes)
    → is_seen n (once seen names) || is_seen n seen ≡ is_seen n names || is_seen n seen
unfolding is_seen
is_seen-once n seen [] = refl
is_seen-once n seen (name ∷ names) = elim (Bool-cases (is_seen name seen)) [
  | inl old ↦ rw old (elim (Bool-cases (equal name n)) [
    | inl same ↦
        let e : name ≡ n = (equal_iff name n).0 same in
        let old' : is_seen n seen ≡ true = subst (λ t. is_seen t seen ≡ true) e old in ground arith
    | inr other ↦ ground (arith, is_seen-once n seen names)
  ])
  | inr new ↦ rw new (ground (arith, is_seen-once n (name ∷ seen) names))
]

explicit_names-cons :
    (name : Bytes) (b : Bool) (repeated added : Result (List Bytes)) (names : List Bytes)
    → (if b then repeated else push_front name added) ≡ ok names
    → ((b ≡ true) × (repeated ≡ ok names))
      ⊎ ((b ≡ false) × ((later : List Bytes) × (added ≡ ok later) × (names ≡ name ∷ later)))
explicit_names-cons name true repeated added names h = inl (refl, h)
explicit_names-cons name false repeated added names h =
    let (later, p, q) = >>=-eq-ok added _ h in inr (refl, (later, p, cc))

-- Children whose names are taken are texts, none of them empty.
explicit_names-once :
    (seen : List Bytes) (children : List Scalar) (names : List Bytes)
    → explicit_names seen children ≡ ok names
    → (texts : List Bytes) × (children ≡ as_children texts)
      × All (λ text. text ≢ []) texts
      × (names ≡ once seen texts)
unfolding explicit_names
explicit_names-once seen [] names h = ([], refl, tt, cc)
explicit_names-once seen (child ∷ children) names h =
    let (name, p, h') = >>=-eq-ok (explicit_name child) _ h in
    let (text, full) = explicit_name-ok child name p in
    elim (explicit_names-cons name (is_seen name seen) _ _ names h') [
      | inl (old, q) ↦
          let (texts, e, all, r) = explicit_names-once seen children names q in
          (name ∷ texts, ap₂ ◌∷◌ text e, (full, all), r ∙ sym (if_true _ _ old))
      | inr (new, (later, q, f)) ↦
          let (texts, e, all, r) = explicit_names-once (name ∷ seen) children later q in
          (name ∷ texts, ap₂ ◌∷◌ text e, (full, all), f ∙ ap (◌∷◌ name) r ∙ sym (if_false _ _ new))
    ]

-- The names of a value: those of its children, each once, in the order of their first use.
pub record IsExplicit (value : DuckValue) (names : List Bytes) : Type 0 where
  pub texts : List Bytes
  pub given : value ≡ varchar_list (as_children texts)
  pub fresh : Fresh [] names
  pub same_names : (n : Bytes) → is_seen n names ≡ is_seen n texts

or_false : (b : Bool) → b || false ≡ b
or_false true = refl
or_false false = refl

pub same-once : (n : Bytes) (texts : List Bytes) → is_seen n (once [] texts) ≡ is_seen n texts
unfolding is_seen
same-once n texts =
    sym (or_false (is_seen n (once [] texts)))
    ∙ is_seen-once n [] texts
    ∙ or_false (is_seen n texts)

-- If `INDEXES` is accepted, then it is a list of texts, and the names are exactly those texts,
-- each once and none empty.
pub parse_explicit_indexes-IsExplicit :
    (value : DuckValue) (names : List Bytes)
    → parse_explicit_indexes value ≡ ok names
    → IsExplicit value names
unfolding parse_explicit_indexes
parse_explicit_indexes-IsExplicit (varchar_list children) names h =
    let (texts, e, all, r) = explicit_names-once [] children names h in
    record {
      texts = texts;
      given = ap varchar_list e;
      fresh = subst (Fresh []) (sym r) (Fresh-once [] texts all);
      same_names = λ n. ap (is_seen n) r ∙ same-once n texts;
    }
parse_explicit_indexes-IsExplicit (scalar s) names h = cc
parse_explicit_indexes-IsExplicit (other_list n) names h = cc
