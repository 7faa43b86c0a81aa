-- ===== src/Logs/Query/Form.antt =====
-- The body of the request is a form with exactly the fields that the export API is given.
use duckdb_splunk.Prelude.{
  ℕ, ◌≡◌, refl, List, [], ◌∷◌, ◌++◌, Bytes, codes, ◌==◌, arith, if◌then◌else◌, inl, inr,
  append_assoc, ◌≢◌, map, ◌∙◌, ap, All, All-append, ℤ, pos, ltb_ℤ, pos_part, to_string, Bool-cases,
  to_string-IsDigit, IsDigit, sym, append-nil,
}
use duckdb_splunk.External.{StringUtil, StringUtilLaws, IsFormByte}
use duckdb_splunk.Logs.Query.{normalize_search_query, build_export_body}

-- How a server splits a form: the text up to the next `&`, and the text up to the first `=` of it.
unfoldable pub split_fields : Bytes → Bytes → List Bytes
split_fields now [] = now ∷ []
split_fields now (c ∷ s) =
    let more = split_fields [] s in
    let longer = split_fields (now ++ c ∷ []) s in if c == b'&' then now ∷ more else longer

abbrev IsOneField : Bytes → Type 0
IsOneField = All (λ c. c ≢ b'&')

split_fields-run :
    (now v rest : Bytes)
    → IsOneField v
    → split_fields now (v ++ rest) ≡ split_fields (now ++ v) rest
unfolding split_fields
split_fields-run now [] rest h = ap (λ s. split_fields s rest) (sym (append-nil now))
split_fields-run now (c ∷ v) rest h =
    ground (arith, split_fields-run (now ++ c ∷ []) v rest h.1, append_assoc now (c ∷ []) v)

split_fields-amp : (now rest : Bytes) → split_fields now (b'&' ∷ rest) ≡ now ∷ split_fields [] rest
unfolding split_fields
split_fields-amp now rest = refl

split_fields-end : (now : Bytes) → split_fields now [] ≡ now ∷ []
unfolding split_fields
split_fields-end now = refl

-- The key and the value of a field.
unfoldable pub cut_field : Bytes → Bytes → Bytes × Bytes
cut_field key [] = (key, [])
cut_field key (c ∷ s) =
    let longer = cut_field (key ++ c ∷ []) s in if c == b'=' then (key, s) else longer

-- The fields that a server reads from a form.
unfoldable pub parse_form : Bytes → List (Bytes × Bytes)
parse_form body = map (cut_field []) (split_fields [] body)

parse_form-cons :
    (v rest : Bytes)
    → IsOneField v
    → parse_form (v ++ b'&' ∷ rest) ≡ cut_field [] v ∷ parse_form rest
unfolding parse_form
parse_form-cons v rest h =
    ap (map (cut_field [])) (split_fields-run [] v (b'&' ∷ rest) h ∙ split_fields-amp v rest)

parse_form-last : (v : Bytes) → IsOneField v → parse_form v ≡ cut_field [] v ∷ []
unfolding parse_form
parse_form-last v h =
    ap (map (cut_field []))
      (ap (split_fields []) (sym (append-nil v)) ∙ split_fields-run [] v [] h ∙ split_fields-end v)

IsOneField-digits : (s : Bytes) → All IsDigit s → IsOneField s
IsOneField-digits [] h = tt
IsOneField-digits (c ∷ s) h = (λ e. omega arith, IsOneField-digits s h.1)

IsOneField-encoded : (s : Bytes) → All IsFormByte s → IsOneField s
IsOneField-encoded [] h = tt
IsOneField-encoded (c ∷ s) h = (h.0.0, IsOneField-encoded s h.1)

json_last : parse_form (codes "output_mode=json") ≡ (codes "output_mode", codes "json") ∷ []
unfolding parse_form split_fields cut_field
json_last = refl

json_field :
    (v : Bytes)
    → parse_form (codes "output_mode=json&" ++ v)
      ≡ (codes "output_mode", codes "json") ∷ parse_form v
unfolding cut_field
json_field v = parse_form-cons (codes "output_mode=json") v (ground arith)

count_field :
    (n : ℕ) → parse_form (codes "count=" ++ to_string n) ≡ (codes "count", to_string n) ∷ []
unfolding cut_field
count_field n = parse_form-last (codes "count=" ++ to_string n) (
    All-append _ (codes "count=") _ (ground arith)
      (IsOneField-digits (to_string n) (to_string-IsDigit n)))

module _ (su : StringUtil) where
  -- The fields of a request: the row cap is there exactly if one is asked for.
  abbrev pub export_fields : Bytes → Bytes → Bytes → ℤ → List (Bytes × Bytes)
  export_fields query earliest latest max_rows =
      (codes "search", su.url_encode (normalize_search_query su query))
      ∷ (codes "earliest_time", su.url_encode earliest)
      ∷ (codes "latest_time", su.url_encode latest)
      ∷ (codes "output_mode", codes "json")
      ∷ (if ltb_ℤ (pos 0) max_rows then (codes "count", to_string (pos_part max_rows)) ∷ [] else [])

module _ (su : StringUtil) (laws : StringUtilLaws su) where
  abbrev field_of : Bytes → Bytes → Bytes
  field_of key v = key ++ b'=' ∷ su.url_encode v

  IsOneField-field : (key v : Bytes) → IsOneField key → IsOneField (field_of key v)
  IsOneField-field key v h =
      All-append _ key _ h
        ((λ e. omega arith), IsOneField-encoded (su.url_encode v) (laws.url_encode_form v))

  field_cons :
      (key v rest : Bytes)
      → IsOneField key
      → parse_form (field_of key v ++ b'&' ∷ rest) ≡ cut_field [] (field_of key v) ∷ parse_form rest
  field_cons key v rest h = parse_form-cons (field_of key v) rest (IsOneField-field key v h)

  -- The three fields that every request begins with, in front of the rest of its body.
  three_fields :
      (query earliest latest rest : Bytes)
      → parse_form (
          field_of (codes "search") query
          ++ b'&'
            ∷ (field_of (codes "earliest_time") earliest
                ++ b'&' ∷ (field_of (codes "latest_time") latest ++ b'&' ∷ rest)))
        ≡ (codes "search", su.url_encode query)
          ∷ (codes "earliest_time", su.url_encode earliest)
          ∷ (codes "latest_time", su.url_encode latest)
          ∷ parse_form rest
  unfolding cut_field
  three_fields query earliest latest rest =
      field_cons (codes "search") query
        (field_of (codes "earliest_time") earliest
          ++ b'&' ∷ (field_of (codes "latest_time") latest ++ b'&' ∷ rest))
        (omega arith)
      ∙ ap (◌∷◌ (codes "search", su.url_encode query)) (
          field_cons (codes "earliest_time") earliest
            (field_of (codes "latest_time") latest ++ b'&' ∷ rest) (omega arith)
          ∙ ap (◌∷◌ (codes "earliest_time", su.url_encode earliest))
              (field_cons (codes "latest_time") latest rest (omega arith)))

  -- If URL encoding yields bytes that a form leaves alone, then splitting the body of the
  -- export request at `&` and `=` gives the normalised query, the two times, the output mode
  -- and, if the cap is positive, its decimal digits, each encoded under its own name, and no
  -- other field.
  pub parse_form-build :
      (query earliest latest : Bytes) (max_rows : ℤ)
      → parse_form (build_export_body su query earliest latest max_rows)
        ≡ export_fields su query earliest latest max_rows
  unfolding build_export_body
  parse_form-build query earliest latest max_rows = elim (Bool-cases (ltb_ℤ (pos 0) max_rows)) [
    | inl capped ↦ rw capped (
        ap parse_form (simp append_assoc)
        ∙ three_fields (normalize_search_query su query) earliest latest
            (codes "output_mode=json&count=" ++ to_string (pos_part max_rows))
        ∙ ap three (
            json_field (codes "count=" ++ to_string (pos_part max_rows))
            ∙ ap (◌∷◌ (codes "output_mode", codes "json")) (count_field (pos_part max_rows))))
    | inr free ↦ rw free (
        ap parse_form (simp append_assoc)
        ∙ three_fields (normalize_search_query su query) earliest latest (codes "output_mode=json")
        ∙ ap three json_last)
  ]
    where
      three : List (Bytes × Bytes) → List (Bytes × Bytes)
      three rest =
          (codes "search", su.url_encode (normalize_search_query su query))
          ∷ (codes "earliest_time", su.url_encode earliest)
          ∷ (codes "latest_time", su.url_encode latest)
          ∷ rest
