-- ===== src/Logs/Browser/Lines.antt =====
-- The line at the front of a response is the first of its lines.
use duckdb_splunk.Prelude.{
  ℕ, ◌<◌, ◌≡◌, ap, ◌∙◌, sym, inl, inr, false, Option, none, some, [], ◌∷◌, ◌++◌, Bytes, length,
  ◌==◌, arith, Bool-cases, append-nil, append_assoc,
}
use duckdb_splunk.Logs.Stream.{find_newline}
use duckdb_splunk.Logs.Stream.Lines.{lines_from, last_line}
use duckdb_splunk.Logs.Stream.Whole.{lines_from_newline, lines_from_other, lines_from_end}
use duckdb_splunk.Logs.Browser.{next_line}

-- What the search for a newline says of the lines, where `now` is read already.
abbrev Splits : Bytes → Bytes → Option (Bytes × Bytes) → Type 0
Splits now rest none = lines_from now rest ≡ last_line (now ++ rest)
Splits now rest (some (line, after)) =
    (lines_from now rest ≡ (now ++ line) ∷ lines_from [] after) × (length after < length rest)

Splits-other :
    (now rest : Bytes) (c : ℕ) (o : Option (Bytes × Bytes))
    → (c == b'\n') ≡ false
    → Splits (now ++ c ∷ []) rest o
    → Splits now (c ∷ rest) (elim o [ none ↦ none | some (line, after) ↦ some (c ∷ line, after) ])
Splits-other now rest c none h k =
    lines_from_other now rest c h ∙ k ∙ ap last_line (append_assoc now (c ∷ []) rest)
Splits-other now rest c (some (line, after)) h k = (
  lines_from_other now rest c h
      ∙ k.0
      ∙ ap (λ l. l ∷ lines_from [] after) (append_assoc now (c ∷ []) line),
  omega arith,
)

find_newline-Splits : (now rest : Bytes) → Splits now rest (find_newline rest)
unfolding find_newline
find_newline-Splits now [] = lines_from_end now ∙ ap last_line (sym (append-nil now))
find_newline-Splits now (c ∷ rest) = elim (Bool-cases (c == b'\n')) [
  | inl ends ↦ rw ends (
    lines_from_newline now rest c ends ∙ ap (λ l. l ∷ lines_from [] rest) (sym (append-nil now)),
    omega arith,
  )
  | inr other ↦
      rw other (
        Splits-other now rest c (find_newline rest) other
          (find_newline-Splits (now ++ c ∷ []) rest))
]

-- The front line of a text that is not empty, and the lines behind it.
abbrev pub IsFront : Bytes → Bytes × Bytes → Type 0
IsFront rest (line, after) =
    (lines_from [] rest ≡ line ∷ lines_from [] after) × (length after < length rest)

IsFront-response :
    (rest : Bytes) (o : Option (Bytes × Bytes))
    → 0 < length rest
    → Splits [] rest o
    → IsFront rest (elim o [ none ↦ (rest, []) | some (line, after) ↦ (line, after) ])
IsFront-response (c ∷ rest) none h k =
    (k ∙ ap (◌∷◌ (c ∷ rest)) (sym (lines_from_end [])), omega arith)
IsFront-response rest (some (line, after)) h k = k
IsFront-response [] none h k = absurd (omega arith)

pub next_line-IsFront : (rest : Bytes) → 0 < length rest → IsFront rest (next_line rest)
unfolding next_line
next_line-IsFront rest h = IsFront-response rest (find_newline rest) h (find_newline-Splits [] rest)
