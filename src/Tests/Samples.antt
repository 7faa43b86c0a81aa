-- ===== src/Tests/Samples.antt =====
-- Small libraries that keep the laws of External: ASCII strings, documents from a table, and
-- natural numbers in place of doubles.
use duckdb_splunk.Prelude.{
  ℕ, ◌+◌, ◌-◌, ◌*◌, ◌/◌, ◌%◌, ◌≡◌, ◌≢◌, refl, ap, ◌∙◌, Bool, true, false, ◌&&◌, ◌||◌, Option, none,
  some, List, [], ◌∷◌, ◌++◌, map, Bytes, equal, is_space, lower_byte, leb, ltb, ◌==◌, if◌then◌else◌,
  arith, All, All-append, pos, le→leb, lt→leb_false, Bool-cases, inl, inr, is_empty,
}
use duckdb_splunk.External.{
  StringUtil, StringUtilLaws, FrontTrimmed, BackTrimmed, IsFormByte, Json, uint, Number, Members,
  members, assoc, Yyjson, YyjsonLaws, Doubles, DoublesLaws, Timestamps, Platform,
}

abbrev skip_front : Bytes → Bytes
skip_front [] = []
skip_front (c ∷ s) = if is_space c then skip_front s else c ∷ s

abbrev skip_back : Bytes → Bytes
skip_back [] = []
skip_back (c ∷ s) = let rest = skip_back s in if is_empty rest && is_space c then [] else c ∷ rest

abbrev has_prefix : Bytes → Bytes → Bool
has_prefix s [] = true
has_prefix [] (d ∷ p) = false
has_prefix (c ∷ s) (d ∷ p) = c == d && has_prefix s p

abbrev is_unreserved : ℕ → Bool
is_unreserved c =
    (leb b'a' c && leb c b'z')
    || ((leb b'A' c && leb c b'Z')
        || ((leb b'0' c && leb c b'9') || (c == b'-' || (c == b'_' || (c == b'.' || c == b'~')))))

abbrev hex_digit : ℕ → ℕ
hex_digit n = if ltb n 10 then b'0' + n else b'A' + (n - 10)

abbrev encode_byte : ℕ → Bytes
encode_byte c =
    if is_unreserved c then c ∷ [] else b'%' ∷ hex_digit (c / 16 % 16) ∷ hex_digit (c % 16) ∷ []

abbrev percent_encode : Bytes → Bytes
percent_encode [] = []
percent_encode (c ∷ s) = encode_byte c ++ percent_encode s

abbrev lower_text : Bytes → Bytes
lower_text = map lower_byte

abbrev pub ascii : StringUtil
ascii = record {
  lower = lower_text;
  trim = λ s. skip_back (skip_front s);
  starts_with = has_prefix;
  ci_equals = λ a b. equal (lower_text a) (lower_text b);
  url_encode = percent_encode;
}

FrontTrimmed-cons : (c : ℕ) (s : Bytes) → is_space c ≢ true → FrontTrimmed (skip_back (c ∷ s))
FrontTrimmed-cons c s h = elim (Bool-cases (is_space c)) [
  | inl space ↦ absurd (h space)
  | inr text ↦ ground arith
]

skip_back-front : (s : Bytes) → FrontTrimmed s → FrontTrimmed (skip_back s)
skip_back-front [] h = tt
skip_back-front (c ∷ s) h = FrontTrimmed-cons c s h

skip_front-front : (s : Bytes) → FrontTrimmed (skip_front s)
skip_front-front [] = tt
skip_front-front (c ∷ s) = ground (arith, skip_front-front s)

skip_back-cons :
    (c : ℕ) (s : Bytes)
    → BackTrimmed s
    → BackTrimmed (if is_empty s && is_space c then [] else c ∷ s)
skip_back-cons c [] h = ground arith
skip_back-cons c (d ∷ s) h = h

skip_back-back : (s : Bytes) → BackTrimmed (skip_back s)
skip_back-back [] = tt
skip_back-back (c ∷ s) = skip_back-cons c (skip_back s) (skip_back-back s)

skip_back-fixed : (s : Bytes) → BackTrimmed s → skip_back s ≡ s
skip_back-fixed [] h = refl
skip_back-fixed (c ∷ []) h = ground arith
skip_back-fixed (c ∷ d ∷ s) h = ground (arith, skip_back-fixed (d ∷ s) h)

skip_front-fixed : (s : Bytes) → FrontTrimmed s → skip_front s ≡ s
skip_front-fixed [] h = refl
skip_front-fixed (c ∷ s) h = ground arith

has_prefix-append : (p s : Bytes) → has_prefix (p ++ s) p ≡ true
has_prefix-append [] s = refl
has_prefix-append (c ∷ p) s = ground (arith, has_prefix-append p s)

has_prefix-split : (s p : Bytes) → has_prefix s p ≡ true → (rest : Bytes) × (s ≡ p ++ rest)
has_prefix-split s [] h = (s, refl)
has_prefix-split [] (d ∷ p) h = absurd (let e : false ≡ true = h in cc)
has_prefix-split (c ∷ s) (d ∷ p) h =
    let (rest, e) = has_prefix-split s p (ground arith) in (rest, ground arith)

encode_byte-form : (c : ℕ) → All IsFormByte (encode_byte c)
encode_byte-form c = elim (Bool-cases (is_unreserved c)) [
  | inl plain ↦ ground arith
  | inr coded ↦ ground arith
]

percent_encode-form : (s : Bytes) → All IsFormByte (percent_encode s)
percent_encode-form [] = tt
percent_encode-form (c ∷ s) =
    All-append IsFormByte (encode_byte c) _ (encode_byte-form c) (percent_encode-form s)

pub ascii-laws : StringUtilLaws ascii
ascii-laws = record {
  lower_map = λ s. refl;
  trim_front = λ s. skip_back-front (skip_front s) (skip_front-front s);
  trim_back = λ s. skip_back-back (skip_front s);
  trim_fixed = λ s f b. ap skip_back (skip_front-fixed s f) ∙ skip_back-fixed s b;
  starts_with_append = has_prefix-append;
  starts_with_split = has_prefix-split;
  ci_equals_lower = λ a b. refl;
  url_encode_form = percent_encode-form;
}

-- A reader that knows some documents by heart.
abbrev read_table : List (Bytes × Json) → Bytes → Option Json
read_table [] text = none
read_table ((t, j) ∷ rest) text = if equal t text then some j else read_table rest text

abbrev joined_keys : Members → Bytes
joined_keys [] = []
joined_keys ((k, v) ∷ ms) = k ++ b',' ∷ joined_keys ms

-- The documents are looked up; an object is written as its keys.
abbrev pub table_json : List (Bytes × Json) → Yyjson
table_json documents = record {
  read = read_table documents;
  obj_get = λ j k. assoc k (members j);
  mut_obj_get = λ ms k. assoc k ms;
  mut_obj_add = λ ms k v. ms ++ (k, v) ∷ [];
  mut_write = λ ms. some (b'{' ∷ (joined_keys ms ++ b'}' ∷ []));
}

pub table_json-laws : (documents : List (Bytes × Json)) → YyjsonLaws (table_json documents)
table_json-laws documents = record {
  obj_get_assoc = λ j k. refl;
  mut_obj_get_assoc = λ ms k. refl;
  mut_obj_add_append = λ ms k v. refl;
}

abbrev number_value : Number → ℕ
number_value (uint n) = n
number_value _ = 0

abbrev read_digits : Bytes → ℕ → ℕ × Bytes
read_digits [] n = (n, [])
read_digits (c ∷ s) n =
    let more = read_digits s (n * 10 + (c - b'0')) in
    if leb b'0' c && leb c b'9' then more else (n, c ∷ s)

-- Natural numbers, with no rounding.
abbrev pub naturals : Doubles
naturals = record {
  of_ℕ = λ n. n;
  ge = λ a b. leb b a;
  mul = λ a b. a * b;
  llround = λ n. pos n;
  get_num = number_value;
  strtod = λ s. read_digits s 0;
}

pub naturals-laws : DoublesLaws naturals
naturals-laws = record {
  ge_of_le = λ a b h. le→leb a b h;
  ge_exact = λ a b ha hb h. lt→leb_false b a h;
  mul_exact = λ a b ha hb. refl;
}

-- No text is an ISO-8601 time stamp.
abbrev pub no_iso : Timestamps
no_iso = record { try_convert_tz = λ s. none; try_convert_ns = λ s. none; epoch_nanos = λ z. none }

abbrev pub sample_platform : List (Bytes × Json) → Platform
sample_platform documents = record {
  strings = ascii;
  json = table_json documents;
  doubles = naturals;
  timestamps = no_iso;
}
