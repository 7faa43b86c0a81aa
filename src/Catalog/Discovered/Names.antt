-- ===== src/Catalog/Discovered/Names.antt =====
-- Which names the entries of a discovery have.
use duckdb_splunk.Prelude.{
  ◌≡◌, ◌≢◌, ◌↔◌, ◌⊎◌, refl, ap, ◌∙◌, sym, inl, inr, Option, none, some, List, [], ◌∷◌, Bytes, codes,
  is_empty, c_string, All, Member, here, there, equal, equal_iff, true, if◌then◌else◌, Bool-cases,
  Option-cases, if_true, if_false, subst,
}
use duckdb_splunk.External.{Json, str, obj, Yyjson}
use duckdb_splunk.Catalog.{is_seen, discovered_name}
use duckdb_splunk.Catalog.Indexes.{nonempty}

Member-cons :
    {n name : Bytes} {names : List Bytes} → Member n (name ∷ names) → (name ≡ n) ⊎ Member n names
Member-cons here = inl refl
Member-cons (there m) = inr m

not_Member : {n : Bytes} → Member n [] → ⊥
not_Member {n = n} m = not_here m refl
  where
    not_here : {ns : List Bytes} → Member n ns → ns ≢ []
    not_here here e = cc
    not_here (there m) e = cc

Member-first : {n name : Bytes} {names : List Bytes} → name ≡ n → Member n (name ∷ names)
Member-first {name = name} {names = names} e = subst (λ k. Member k (name ∷ names)) e here

some_eq : {a b : Bytes} → some a ≡ some b → a ≡ b
some_eq e = cc

-- The set of the loop holds what the list does.
is_seen-Member : (n : Bytes) (names : List Bytes) → (is_seen n names ≡ true) ↔ Member n names
unfolding is_seen
is_seen-Member n [] = (λ h. cc, λ m. absurd (not_Member m))
is_seen-Member n (name ∷ names) =
    let rest = is_seen-Member n names in
    (
      λ h. elim (Bool-cases (equal name n)) [
        | inl same ↦ Member-first ((equal_iff name n).0 same)
        | inr other ↦ there (rest.0 (sym (if_false _ _ other) ∙ h))
      ],
      λ m. elim (Member-cons m) [
        | inl same ↦ if_true _ _ ((equal_iff name n).1 same)
        | inr later ↦ elim (Bool-cases (equal name n)) [
          | inl same ↦ if_true _ _ same
          | inr other ↦ if_false _ _ other ∙ rest.1 later
        ]
      ],
    )

pub same-Member :
    (n : Bytes) (names texts : List Bytes)
    → is_seen n names ≡ is_seen n texts
    → Member n names ↔ Member n texts
same-Member n names texts e = (
  λ m. (is_seen-Member n texts).0 (sym e ∙ (is_seen-Member n names).1 m),
  λ m. (is_seen-Member n names).0 (e ∙ (is_seen-Member n texts).1 m),
)

module _ (y : Yyjson) where
  -- The names of the entries that have one.
  abbrev pub entry_texts : List Json → List Bytes
  entry_texts [] = []
  entry_texts (entry ∷ entries) = elim (discovered_name y entry) [
    | none ↦ entry_texts entries
    | some name ↦ name ∷ entry_texts entries
  ]

  named_full :
      (o : Option Json) (name : Bytes)
      → (elim o [
        | some (str s) ↦ if is_empty (c_string s) then none else some (c_string s)
        | _ ↦ none
      ])
        ≡ some name
      → name ≢ []
  named_full none name h = cc
  named_full (some (str s)) name h = elim (Bool-cases (is_empty (c_string s))) [
    | inl empty ↦ absurd (not_some (sym (if_true _ _ empty) ∙ h))
    | inr full ↦
        subst (λ t. t ≢ []) (same_name (sym (if_false _ _ full) ∙ h)) (nonempty (c_string s) full)
  ]
    where
      not_some : none ≡ some name → ⊥
      not_some e = cc

      same_name : some (c_string s) ≡ some name → c_string s ≡ name
      same_name e = cc
  named_full (some _) name h = cc

  discovered_name-full :
      (entry : Json) (name : Bytes) → discovered_name y entry ≡ some name → name ≢ []
  unfolding discovered_name
  discovered_name-full (obj fs) name h = named_full (y.obj_get (obj fs) (codes "name")) name h
  discovered_name-full _ name h = cc

  pub entry_texts-full : (entries : List Json) → All (λ name. name ≢ []) (entry_texts entries)
  entry_texts-full [] = tt
  entry_texts-full (entry ∷ entries) = elim (Option-cases (discovered_name y entry)) [
    | inl missing ↦ rw (missing, All, entry_texts) (entry_texts-full entries)
    | inr (name, found) ↦
        rw (found, All, entry_texts)
          (discovered_name-full entry name found, entry_texts-full entries)
  ]

  -- An entry with a name: an object whose `name` is a string, which ends at its first NUL and
  -- is not empty.
  abbrev pub HasName : Bytes → Json → Type 0
  HasName n (obj fs) =
      (s : Bytes) × (y.obj_get (obj fs) (codes "name") ≡ some (str s)) × (c_string s ≡ n) × (n ≢ [])
  HasName n _ = ⊥

  abbrev pub SomeHasName : Bytes → List Json → Type 0
  SomeHasName n [] = ⊥
  SomeHasName n (entry ∷ entries) = HasName n entry ⊎ SomeHasName n entries

  named_text :
      (o : Option Json) (n : Bytes)
      → (elim o [
        | some (str s) ↦ if is_empty (c_string s) then none else some (c_string s)
        | _ ↦ none
      ])
        ≡ some n
      → (s : Bytes) × (o ≡ some (str s)) × (c_string s ≡ n)
  named_text none n h = cc
  named_text (some (str s)) n h = elim (Bool-cases (is_empty (c_string s))) [
    | inl empty ↦ absurd (let clash : none ≡ some n = sym (if_true _ _ empty) ∙ h in cc)
    | inr full ↦
        (s, refl, (let same : some (c_string s) ≡ some n = sym (if_false _ _ full) ∙ h in cc))
  ]
  named_text (some _) n h = cc

  text_named :
      (s n : Bytes)
      → c_string s ≡ n
      → n ≢ []
      → (if is_empty (c_string s) then none else some (c_string s)) ≡ some n
  text_named s [] e ne = absurd (ne refl)
  text_named s (c ∷ n) e ne = rw e refl

  discovered_name-HasName :
      (entry : Json) (n : Bytes) → (discovered_name y entry ≡ some n) ↔ HasName n entry
  unfolding discovered_name
  discovered_name-HasName (obj fs) n = (
    λ h.
        let (s, p, q) = named_text (y.obj_get (obj fs) (codes "name")) n h in
        (s, p, q, named_full (y.obj_get (obj fs) (codes "name")) n h),
    λ (s, p, q, ne). rw (p, discovered_name) (text_named s n q ne),
  )
  discovered_name-HasName _ n = (λ h. cc, λ h. absurd h)

  skipped :
      (entry : Json) (entries : List Json)
      → discovered_name y entry ≡ none
      → entry_texts (entry ∷ entries) ≡ entry_texts entries
  skipped entry entries missing = rw (missing, entry_texts) refl

  taken :
      (entry : Json) (entries : List Json) (name : Bytes)
      → discovered_name y entry ≡ some name
      → entry_texts (entry ∷ entries) ≡ name ∷ entry_texts entries
  taken entry entries name found = rw (found, entry_texts) refl

  pub entry_texts-SomeHasName :
      (n : Bytes) (entries : List Json) → Member n (entry_texts entries) ↔ SomeHasName n entries
  entry_texts-SomeHasName n [] = (λ h. absurd (not_Member h), λ h. absurd h)
  entry_texts-SomeHasName n (entry ∷ entries) =
      let rest = entry_texts-SomeHasName n entries in
      let named = discovered_name-HasName entry n in
      elim (Option-cases (discovered_name y entry)) [
        | inl missing ↦
            let e = skipped entry entries missing in
            (
              λ h. inr (rest.0 (subst (Member n) e h)),
              λ h. subst (Member n) (sym e) (elim h [
                | inl first ↦ absurd (let clash : none ≡ some n = sym missing ∙ named.1 first in cc)
                | inr later ↦ rest.1 later
              ]),
            )
        | inr (name, found) ↦
            let e = taken entry entries name found in
            (
              λ h. elim (Member-cons (subst (Member n) e h)) [
                | inl same ↦ inl (named.0 (found ∙ ap some same))
                | inr later ↦ inr (rest.0 later)
              ],
              λ h. subst (Member n) (sym e) (elim h [
                | inl first ↦
                    let same : some name ≡ some n = sym found ∙ named.1 first in
                    Member-first (some_eq same)
                | inr later ↦ there (rest.1 later)
              ]),
            )
      ]
