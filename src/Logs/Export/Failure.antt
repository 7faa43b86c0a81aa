-- ===== src/Logs/Export/Failure.antt =====
-- A failed search is reported by its first ERROR or FATAL message, and by no other.
use duckdb_splunk.Prelude.{
  ◌≡◌, ◌↔◌, ◌⊎◌, refl, true, false, arith, Option, none, some, List, [], ◌∷◌, Bytes, codes, All,
  if◌then◌else◌, Bool-cases, inl, inr, subst,
}
use duckdb_splunk.External.{Json, arr, obj, Fields, Items, elements, Yyjson, StringUtil}
use duckdb_splunk.Errors.{Exception, search_error, Result, ok, throw, ◌>>=◌}
use duckdb_splunk.Logs.Lookup.{get_str}
use duckdb_splunk.Logs.Export.{is_failure_type, detail, check_messages, throw_if_search_error}

module _ (y : Yyjson) (su : StringUtil) where
  -- The two types of a message that end a scan.
  abbrev pub IsFailureType : Bytes → Type 0
  IsFailureType type =
      (su.ci_equals type (codes "FATAL") ≡ true) ⊎ (su.ci_equals type (codes "ERROR") ≡ true)

  -- The text of a message, or what stands for it.
  abbrev pub IsDetail : Option Bytes → Bytes → Type 0
  IsDetail (some text) shown = shown ≡ text
  IsDetail none shown = shown ≡ codes "(no detail)"

  is_failure_type_iff : (type : Bytes) → (is_failure_type y su type ≡ true) ↔ IsFailureType type
  is_failure_type_iff type = (ground arith, ground arith)

  detail-IsDetail : (text : Option Bytes) → IsDetail text (detail y su text)
  detail-IsDetail none = refl
  detail-IsDetail (some text) = refl

  harmless_type : (type : Bytes) → is_failure_type y su type ≡ false → ¬ IsFailureType type
  harmless_type type h = ground arith

  -- A message that ends the scan, and the exception that says so.
  pub record Fails (msg : Json) (e : Exception) : Type 0 where
    pub type : Bytes
    pub has_type : get_str y (some msg) (codes "type") ≡ some type
    pub is_failure : IsFailureType type
    pub shown : Bytes
    pub detail_lem : IsDetail (get_str y (some msg) (codes "text")) shown
    pub reported : e ≡ search_error type shown

  -- A message with no type, or of another type.
  abbrev pub IsHarmless : Json → Type 0
  IsHarmless msg =
      (type : Bytes) → get_str y (some msg) (codes "type") ≡ some type → ¬ IsFailureType type

  pub data FirstFailure (e : Exception) : List Json → Type 0 where
    here : {msg : Json} {msgs : List Json} → Fails msg e → FirstFailure e (msg ∷ msgs)
    later :
        {msg : Json} {msgs : List Json}
        → IsHarmless msg
        → FirstFailure e msgs
        → FirstFailure e (msg ∷ msgs)

  -- What the check of a list of messages says of it.
  abbrev pub CheckResult : List Json → Result (Unit {0}) → Type 0
  CheckResult msgs (ok _) = All IsHarmless msgs
  CheckResult msgs (throw e) = FirstFailure e msgs

  abbrev MessageResult : Json → Result (Unit {0}) → Type 0
  MessageResult msg (ok _) = IsHarmless msg
  MessageResult msg (throw e) = Fails msg e

  check_type-MessageResult :
      (msg : Json) (t : Option Bytes)
      → get_str y (some msg) (codes "type") ≡ t
      → MessageResult msg (elim t [
        | none ↦ ok tt
        | some type ↦
            if is_failure_type y su type
            then throw (search_error type (detail y su (get_str y (some msg) (codes "text"))))
            else ok tt
      ])
  check_type-MessageResult msg none e = λ type h. cc
  check_type-MessageResult msg (some type) e = elim (Bool-cases (is_failure_type y su type)) [
    | inl fails ↦ rw fails (record {
      type = type;
      has_type = e;
      is_failure = (is_failure_type_iff type).0 fails;
      shown = detail y su (get_str y (some msg) (codes "text"));
      detail_lem = detail-IsDetail (get_str y (some msg) (codes "text"));
      reported = refl;
    })
    | inr harmless ↦ rw harmless (λ type' h.
        let same : type ≡ type' = cc in
        subst (λ t. ¬ IsFailureType t) same (harmless_type type harmless))
  ]

  check_messages-cons :
      (msg : Json) (msgs : List Json) (r s : Result (Unit {0}))
      → MessageResult msg r
      → CheckResult msgs s
      → CheckResult (msg ∷ msgs) (r >>= λ _. s)
  check_messages-cons msg msgs (throw e) s h k = here h
  check_messages-cons msg msgs (ok _) (ok _) h k = (h, k)
  check_messages-cons msg msgs (ok _) (throw e) h k = later h k

  check_messages-CheckResult : (msgs : List Json) → CheckResult msgs (check_messages y su msgs)
  unfolding check_messages
  check_messages-CheckResult [] = tt
  check_messages-CheckResult (msg ∷ msgs) =
      check_messages-cons msg msgs _ (check_messages y su msgs)
        (check_type-MessageResult msg (get_str y (some msg) (codes "type")) refl)
        (check_messages-CheckResult msgs)

  -- For an object whose `messages` is an array: if the check throws, then the exception names
  -- the type and the text, or `(no detail)`, of the first message of type FATAL or ERROR, by
  -- DuckDB's comparison that ignores case, and no message in front of it has such a type; if
  -- the check returns, no message has.
  pub throw_if_search_error-CheckResult :
      (fs : Fields) (js : Items)
      → y.obj_get (obj fs) (codes "messages") ≡ some (arr js)
      → CheckResult (elements (arr js)) (throw_if_search_error y su (obj fs))
  unfolding throw_if_search_error
  throw_if_search_error-CheckResult fs js e = rw e (check_messages-CheckResult (elements (arr js)))
