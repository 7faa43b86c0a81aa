-- ===== src/Client/Browser/Detail.antt =====
-- The error detail is short and stands on one line.
use duckdb_splunk.Prelude.{
  ℕ, zero, suc, ◌+◌, ◌≤◌, ◌≢◌, inl, inr, [], ◌∷◌, Bytes, codes, length, take, map, All, All-append,
  ltb, arith, Bool-cases, length-append, length-take-le,
}
use duckdb_splunk.External.{StringUtil}
use duckdb_splunk.Client.Browser.{
  HttpResponse, max_error_detail_length, flat_character, cut_detail, browser_http_error_detail,
}

abbrev pub IsFlat : ℕ → Type 0
IsFlat c = (c ≢ b'\r') × (c ≢ b'\n') × (c ≢ b'\t')

flat_character-IsFlat : (c : ℕ) → IsFlat (flat_character c)
unfolding flat_character
flat_character-IsFlat c = ground arith

All-map-IsFlat : (s : Bytes) → All IsFlat (map flat_character s)
All-map-IsFlat [] = tt
All-map-IsFlat (c ∷ s) = (flat_character-IsFlat c, All-map-IsFlat s)

All-take : (n : ℕ) (s : Bytes) → All IsFlat s → All IsFlat (take n s)
All-take zero s h = tt
All-take (suc n) [] h = tt
All-take (suc n) (c ∷ s) h = (h.0, All-take n s h.1)

cut_detail-bounds :
    (s : Bytes)
    → All IsFlat s
    → All IsFlat (cut_detail s) × (length (cut_detail s) ≤ max_error_detail_length + 3)
unfolding cut_detail
cut_detail-bounds s h = elim (Bool-cases (ltb max_error_detail_length (length s))) [
  | inl long ↦ rw long (
    All-append IsFlat (take max_error_detail_length s) (codes "...")
        (All-take max_error_detail_length s h) (omega arith),
    omega (
      arith,
      length-append (take max_error_detail_length s) (codes "..."),
      length-take-le max_error_detail_length s,
    ),
  )
  | inr short ↦ rw short (h, ground arith)
]

-- The error detail of a browser response has no carriage return, newline or tab, and at most 503
-- characters.
pub browser_http_error_detail-bounds :
    (su : StringUtil) (r : HttpResponse)
    → All IsFlat (browser_http_error_detail su r)
      × (length (browser_http_error_detail su r) ≤ max_error_detail_length + 3)
unfolding browser_http_error_detail
browser_http_error_detail-bounds su r = cut_detail-bounds (map flat_character _) (All-map-IsFlat _)
