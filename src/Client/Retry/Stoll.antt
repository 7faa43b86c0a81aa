-- ===== src/Client/Retry/Stoll.antt =====
-- `std::stoll` in base ten, of the C++ standard library.
use duckdb_splunk.Prelude.{
  ℕ, ◌+◌, ◌-◌, ◌*◌, ◌^◌, Bool, true, false, ◌&&◌, Option, none, some, [], ◌∷◌, Bytes, ℤ, pos,
  negsuc, ltb, leb, ◌==◌, is_space, if◌then◌else◌,
}

-- The number that the leading digits of a text make, with those before it.
digits_value : Bytes → ℕ → ℕ
digits_value [] n = n
digits_value (c ∷ s) n =
    let more = digits_value s (n * 10 + (c - b'0')) in if leb b'0' c && leb c b'9' then more else n

-- A number in the range of `long long`; `none` stands for `std::out_of_range`.
abbrev in_range : Bool → ℕ → Option ℤ
in_range true n = if leb n (2 ^ 63) then some (if n == 0 then pos 0 else negsuc (n - 1)) else none
in_range false n = if ltb n (2 ^ 63) then some (pos n) else none

-- Behind the sign; no digit is `std::invalid_argument`, `none` too.
unsigned_digits : Bool → Bytes → Option ℤ
unsigned_digits negative [] = none
unsigned_digits negative (c ∷ s) =
    if leb b'0' c && leb c b'9' then in_range negative (digits_value (c ∷ s) 0) else none

signed_digits : Bytes → Option ℤ
signed_digits [] = none
signed_digits (c ∷ s) =
    if c == b'-'
    then unsigned_digits true s
    else if c == b'+'
    then unsigned_digits false s
    else unsigned_digits false (c ∷ s)

skip_spaces : Bytes → Bytes
skip_spaces [] = []
skip_spaces (c ∷ s) = if is_space c then skip_spaces s else c ∷ s

unfoldable pub stoll : Bytes → Option ℤ
unfolding digits_value unsigned_digits signed_digits skip_spaces
stoll text = signed_digits (skip_spaces text)
