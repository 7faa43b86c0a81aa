-- ===== src/Logs/Query/Literal.antt =====
-- The index restriction is one string literal of the search language, whatever the index is called.
use duckdb_splunk.Prelude.{
  ℕ, Bool, true, false, ◌≡◌, refl, [], ◌∷◌, ◌++◌, Bytes, codes, ◌==◌, arith, if◌then◌else◌, Option,
  none, some, append_assoc,
}
use duckdb_splunk.Logs.Query.{escape_index, build_index_query}

abbrev push_read : ℕ → Option (Bytes × Bytes) → Option (Bytes × Bytes)
push_read c none = none
push_read c (some (text, rest)) = some (c ∷ text, rest)

-- How the search language reads a string literal, from behind its opening quote: the text, and
-- what follows the closing quote. The flag says that a backslash stands in front, which takes
-- the next byte as it is.
unfoldable pub read_literal : Bool → Bytes → Option (Bytes × Bytes)
read_literal escaped [] = none
read_literal true (c ∷ s) = push_read c (read_literal false s)
read_literal false (c ∷ s) =
    let ends = some ([], s) in
    let quoted = read_literal true s in
    let plain = push_read c (read_literal false s) in
    if c == b'"' then ends else if c == b'\\' then quoted else plain

-- What follows a text at the front, if it stands there.
abbrev pub read_text : Bytes → Bytes → Option Bytes
read_text [] s = some s
read_text (c ∷ text) [] = none
read_text (c ∷ text) (b ∷ s) = if b == c then read_text text s else none

-- The reader of `index="..."`: the name of the index, and what is left of the search.
unfoldable pub read_index_query : Bytes → Option (Bytes × Bytes)
unfolding read_literal
read_index_query s = elim (read_text (codes "index=\"") s) [
  | none ↦ none
  | some literal ↦ read_literal false literal
]

read_literal-escape :
    (name rest : Bytes) → read_literal false (escape_index name ++ b'"' ∷ rest) ≡ some (name, rest)
unfolding read_literal escape_index
read_literal-escape [] rest = refl
read_literal-escape (c ∷ s) rest = ground (arith, read_literal-escape s rest)

-- A reader of Splunk string literals, with its backslash escapes, reads the index name back from
-- the index restriction and stops at its end, whatever the name holds and whatever follows.
pub read-build_index_query :
    (name rest : Bytes) → read_index_query (build_index_query name ++ rest) ≡ some (name, rest)
unfolding read_index_query build_index_query
read-build_index_query name rest =
    rw (append_assoc (escape_index name) (codes "\"") rest) (read_literal-escape name rest)
