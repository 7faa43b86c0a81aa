-- ===== src/External/Strings.antt =====
-- DuckDB's `StringUtil`, as far as the extension calls it.
use duckdb_splunk.Prelude.{
  ℕ, Bool, true, ◌≡◌, ◌≢◌, [], ◌∷◌, ◌++◌, map, Bytes, equal, lower_byte, is_space, All,
}

pub record StringUtil : Type 0 where
  -- `Lower`.
  pub lower : Bytes → Bytes
  -- `Trim`, in place in the source.
  pub trim : Bytes → Bytes
  -- `StartsWith(text, prefix)`.
  pub starts_with : Bytes → Bytes → Bool
  -- `CIEquals`.
  pub ci_equals : Bytes → Bytes → Bool
  -- `URLEncode`.
  pub url_encode : Bytes → Bytes

-- No white space at the front.
abbrev pub FrontTrimmed : Bytes → Type 0
FrontTrimmed [] = Unit {0}
FrontTrimmed (c ∷ s) = is_space c ≢ true

-- No white space at the back.
abbrev pub BackTrimmed : Bytes → Type 0
BackTrimmed [] = Unit {0}
BackTrimmed (c ∷ []) = is_space c ≢ true
BackTrimmed (c ∷ d ∷ s) = BackTrimmed (d ∷ s)

-- The bytes that a form-encoded value must not hold bare: `&` and `=`.
abbrev pub IsFormByte : ℕ → Type 0
IsFormByte c = (c ≢ b'&') × (c ≢ b'=')

pub record StringUtilLaws (su : StringUtil) : Type 0 where
  -- ASCII letters go to lower case, byte by byte.
  pub lower_map : (s : Bytes) → su.lower s ≡ map lower_byte s
  pub trim_front : (s : Bytes) → FrontTrimmed (su.trim s)
  pub trim_back : (s : Bytes) → BackTrimmed (su.trim s)
  -- A text with no white space at its ends is left alone.
  pub trim_fixed : (s : Bytes) → FrontTrimmed s → BackTrimmed s → su.trim s ≡ s
  pub starts_with_append : (p s : Bytes) → su.starts_with (p ++ s) p ≡ true
  pub starts_with_split :
      (s p : Bytes) → su.starts_with s p ≡ true → (rest : Bytes) × (s ≡ p ++ rest)
  pub ci_equals_lower : (a b : Bytes) → su.ci_equals a b ≡ equal (su.lower a) (su.lower b)
  -- Percent encoding leaves no separator of a form.
  pub url_encode_form : (s : Bytes) → All IsFormByte (su.url_encode s)
