-- ===== src/Catalog/Session/Stable.antt =====
-- What a session leaves: the catalog as it was, and the transactions that nobody has ended.
use duckdb_splunk.Prelude.{
  ℕ, ◌≡◌, refl, ap, ◌∙◌, sym, inl, inr, Bool, true, false, some, List, [], ◌∷◌, Bytes, Member, ◌==◌,
  ==_iff, if◌then◌else◌, Bool-cases, if_true, if_false, subst, arith,
}
use duckdb_splunk.External.{StringUtil}
use duckdb_splunk.Catalog.Entries.{SplunkCatalog, splunk_catalog, table_entry, lookup_entry}
use duckdb_splunk.Catalog.Tables.{lookup_entry-Member}
use duckdb_splunk.Catalog.Session.{
  Transactions, is_open, emplace, erase, Session, Request, start, commit, rollback, checkpoint,
  change_schema, change_catalog, change_transaction, serve, served, serve_all, attach,
}

-- Whether the last request about an address, if any, has started a transaction there.
abbrev pub started_last : ℕ → List Request → Bool → Bool
started_last a [] before = before
started_last a (start b ∷ requests) before =
    started_last a requests (if b == a then true else before)
started_last a (commit b ∷ requests) before =
    started_last a requests (if b == a then false else before)
started_last a (rollback b ∷ requests) before =
    started_last a requests (if b == a then false else before)
started_last a (checkpoint ∷ requests) before = started_last a requests before
started_last a (change_schema c ∷ requests) before = started_last a requests before
started_last a (change_catalog c ∷ requests) before = started_last a requests before
started_last a (change_transaction c ∷ requests) before = started_last a requests before

-- No address twice: the keys of a map.
abbrev pub IsKeySet : Transactions → Type 0
IsKeySet [] = Unit {0}
IsKeySet (t ∷ ts) = (is_open t ts ≡ false) × IsKeySet ts

is_open-emplace :
    (a b : ℕ) (ts : Transactions)
    → is_open a (emplace b ts) ≡ (if b == a then true else is_open a ts)
unfolding emplace is_open
is_open-emplace a b ts = elim (Bool-cases (b == a)) [
  | inl same ↦
      let b_is_a : b ≡ a = (==_iff b a).0 same in
      subst (λ c. is_open a (emplace c ts) ≡ (if b == a then true else is_open a ts)) (sym b_is_a)
        (ground arith)
  | inr other ↦ ground arith
]

is_open-erase :
    (a b : ℕ) (ts : Transactions)
    → IsKeySet ts
    → is_open a (erase b ts) ≡ (if b == a then false else is_open a ts)
unfolding erase is_open
is_open-erase a b [] h = ground arith
is_open-erase a b (t ∷ ts) h =
    let later = is_open-erase a b ts h.1 in
    let first = h.0 in
    elim (Bool-cases (t == b)) [
      | inl erased ↦
          let t_is_b : t ≡ b = (==_iff t b).0 erased in
          ap (is_open a) (if_true _ _ erased) ∙ elim (Bool-cases (b == a)) [
            | inl same ↦
                let t_is_a : t ≡ a = t_is_b ∙ (==_iff b a).0 same in
                sym (ap (λ c. is_open c ts) t_is_a) ∙ first ∙ sym (if_true _ _ same)
            | inr other ↦
                let t_is_not_a : (t == a) ≡ false = ap (λ c. c == a) t_is_b ∙ other in
                sym (if_false _ _ t_is_not_a) ∙ sym (if_false _ _ other)
          ]
      | inr kept ↦
          ap (is_open a) (if_false _ _ kept) ∙ ap (if◌then◌else◌ (t == a) true) later ∙ ground arith
    ]

IsKeySet-emplace : (b : ℕ) (ts : Transactions) → IsKeySet ts → IsKeySet (emplace b ts)
unfolding emplace
IsKeySet-emplace b ts h = elim (Bool-cases (is_open b ts)) [
  | inl old ↦ subst IsKeySet (sym (if_true _ _ old)) h
  | inr new ↦ subst IsKeySet (sym (if_false _ _ new)) (new, h)
]

IsKeySet-erase : (b : ℕ) (ts : Transactions) → IsKeySet ts → IsKeySet (erase b ts)
unfolding erase
IsKeySet-erase b [] h = tt
IsKeySet-erase b (t ∷ ts) h = elim (Bool-cases (t == b)) [
  | inl erased ↦ subst IsKeySet (sym (if_true _ _ erased)) h.1
  | inr kept ↦
      subst IsKeySet (sym (if_false _ _ kept))
        (is_open-erase t b ts h.1 ∙ ground arith, IsKeySet-erase b ts h.1)
]

-- A session whose set has no address twice.
abbrev HasKeySet : Session → Type 0
HasKeySet s = IsKeySet s.transactions

serve-HasKeySet :
    (request : Request) (s : Session) → HasKeySet s → HasKeySet (served s (serve request s))
unfolding serve
serve-HasKeySet (start a) s h = IsKeySet-emplace a s.transactions h
serve-HasKeySet (commit a) s h = IsKeySet-erase a s.transactions h
serve-HasKeySet (rollback a) s h = IsKeySet-erase a s.transactions h
serve-HasKeySet checkpoint s h = h
serve-HasKeySet (change_schema c) s h = h
serve-HasKeySet (change_catalog c) s h = h
serve-HasKeySet (change_transaction c) s h = h

serve_all-cons :
    (request : Request) (requests : List Request) (s : Session)
    → serve_all (request ∷ requests) s ≡ serve_all requests (served s (serve request s))
unfolding serve_all
serve_all-cons request requests s = refl

-- A request does to the set what it does to the answer of `started_last`.
serve-started :
    (a : ℕ) (request : Request) (s : Session)
    → HasKeySet s
    → is_open a (served s (serve request s)).transactions
      ≡ started_last a (request ∷ []) (is_open a s.transactions)
unfolding serve
serve-started a (start b) s h = is_open-emplace a b s.transactions
serve-started a (commit b) s h = is_open-erase a b s.transactions h
serve-started a (rollback b) s h = is_open-erase a b s.transactions h
serve-started a checkpoint s h = refl
serve-started a (change_schema c) s h = refl
serve-started a (change_catalog c) s h = refl
serve-started a (change_transaction c) s h = refl

started_last-cons :
    (a : ℕ) (request : Request) (requests : List Request) (before : Bool)
    → started_last a (request ∷ requests) before
      ≡ started_last a requests (started_last a (request ∷ []) before)
started_last-cons a (start b) requests before = refl
started_last-cons a (commit b) requests before = refl
started_last-cons a (rollback b) requests before = refl
started_last-cons a checkpoint requests before = refl
started_last-cons a (change_schema c) requests before = refl
started_last-cons a (change_catalog c) requests before = refl
started_last-cons a (change_transaction c) requests before = refl

serve_all-started :
    (a : ℕ) (requests : List Request) (s : Session)
    → HasKeySet s
    → is_open a (serve_all requests s).transactions
      ≡ started_last a requests (is_open a s.transactions)
unfolding serve_all
serve_all-started a [] s h = refl
serve_all-started a (request ∷ requests) s h =
    serve_all-started a requests (served s (serve request s)) (serve-HasKeySet request s h)
    ∙ ap (started_last a requests) (serve-started a request s h)
    ∙ sym (started_last-cons a request requests (is_open a s.transactions))

serve-catalog : (request : Request) (s : Session) → (served s (serve request s)).catalog ≡ s.catalog
unfolding serve
serve-catalog (start a) s = refl
serve-catalog (commit a) s = refl
serve-catalog (rollback a) s = refl
serve-catalog checkpoint s = refl
serve-catalog (change_schema c) s = refl
serve-catalog (change_catalog c) s = refl
serve-catalog (change_transaction c) s = refl

pub serve_all-catalog :
    (requests : List Request) (s : Session) → (serve_all requests s).catalog ≡ s.catalog
unfolding serve_all
serve_all-catalog [] s = refl
serve_all-catalog (request ∷ requests) s =
    serve_all-catalog requests (served s (serve request s)) ∙ serve-catalog request s

-- After any requests to an attached catalog, the transaction manager holds a transaction at an
-- address exactly if the last start, commit or rollback there was a start.
pub serve_all-open :
    (catalog : SplunkCatalog) (requests : List Request) (a : ℕ)
    → is_open a (serve_all requests (attach catalog)).transactions ≡ started_last a requests false
unfolding is_open
serve_all-open catalog requests a = serve_all-started a requests (attach catalog) tt

serve_all-lookup :
    (su : StringUtil) (indexes : List Bytes) (secret_name : Bytes) (requests : List Request)
    (name : Bytes)
    → Member name indexes
    → lookup_entry su true name
        (serve_all requests (attach (splunk_catalog indexes secret_name))).catalog.logs_schema
      ≡ some (table_entry secret_name name)
serve_all-lookup su indexes secret_name requests name m =
    ap (λ (c : SplunkCatalog). lookup_entry su true name c.logs_schema)
      (serve_all-catalog requests _)
    ∙ lookup_entry-Member su indexes secret_name name m
