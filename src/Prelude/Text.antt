-- ===== src/Prelude/Text.antt =====
-- Texts as the bytes of a `std::string`, and what the program uses of the C string functions.
use Prim.Native.Char.{code}
use Prim.Native.Nat.{ℕ, ◌+◌}
use Prim.Native.String.{String}
use mathlib.Core.Path.{◌≡◌, refl}
use mathlib.Core.Logic.{◌↔◌, ◌≢◌, inl, inr}
use mathlib.Core.Bool.{Bool, true, false, ◌&&◌, ◌||◌}
use mathlib.Core.List.{List, [], ◌∷◌}
use native.Mathlib.Omega.{arith}
use duckdb_splunk.Prelude.Tests.{leb, ◌==◌, if◌then◌else◌, Bool-cases}

abbrev pub Bytes : Type 0
Bytes = List ℕ

-- The bytes of an ASCII literal.
abbrev pub codes : String → Bytes
codes String.[] = []
codes (String.◌∷◌ c s) = code c ∷ codes s

-- `==` of two `std::string`s, and `strcmp(a, b) == 0`.
unfoldable pub equal : Bytes → Bytes → Bool
equal [] [] = true
equal (x ∷ xs) (y ∷ ys) = x == y && equal xs ys
equal _ _ = false

pub equal_iff : (s t : Bytes) → (equal s t ≡ true) ↔ (s ≡ t)
unfolding equal
equal_iff [] t = ground arith
equal_iff (c ∷ s) [] = ground arith
equal_iff (c ∷ s) (d ∷ t) = ground (arith, equal_iff s t)

pub equal_refl : (a : Bytes) → equal a a ≡ true
equal_refl a = (equal_iff a a).1 refl

pub equal-false : (a b : Bytes) → a ≢ b → equal a b ≡ false
equal-false a b h = ground (arith, equal_iff a b)

abbrev pub is_empty : Bytes → Bool
is_empty [] = true
is_empty (c ∷ s) = false

-- What a `const char *` shows of a text: the bytes in front of the first NUL.
unfoldable pub c_string : Bytes → Bytes
c_string [] = []
c_string (c ∷ s) = if c == 0 then [] else c ∷ c_string s

pub c_string_idem : (s : Bytes) → c_string (c_string s) ≡ c_string s
unfolding c_string
c_string_idem [] = refl
c_string_idem (c ∷ s) = ground (arith, c_string_idem s)

-- The ASCII lower case of one byte, as `StringUtil::Lower` and `tolower` in the C locale have it.
unfoldable pub lower_byte : ℕ → ℕ
lower_byte c = if leb b'A' c && leb c b'Z' then c + 32 else c

-- `isspace` in the C locale.
abbrev pub is_space : ℕ → Bool
is_space c = c == b' ' || (leb 9 c && leb c 13)

-- The loop that takes one byte off the end of a text as long as it stands there.
unfoldable pub drop_back : ℕ → Bytes → Bytes
drop_back b [] = []
drop_back b (c ∷ s) = let rest = drop_back b s in if is_empty rest && c == b then [] else c ∷ rest

-- The text does not end in `b`.
abbrev pub NotEndsIn : ℕ → Bytes → Type 0
NotEndsIn b [] = Unit {0}
NotEndsIn b (c ∷ []) = c ≢ b
NotEndsIn b (c ∷ d ∷ s) = NotEndsIn b (d ∷ s)

NotEndsIn-cons :
    (b c : ℕ) (s : Bytes) → NotEndsIn b s → (is_empty s && c == b) ≡ false → NotEndsIn b (c ∷ s)
NotEndsIn-cons b c [] h k = ground arith
NotEndsIn-cons b c (d ∷ s) h k = h

pub drop_back-NotEndsIn : (b : ℕ) (s : Bytes) → NotEndsIn b (drop_back b s)
unfolding drop_back
drop_back-NotEndsIn b [] = tt
drop_back-NotEndsIn b (c ∷ s) = elim (Bool-cases (is_empty (drop_back b s) && c == b)) [
  | inl drop ↦ rw drop tt
  | inr keep ↦ rw keep (NotEndsIn-cons b c (drop_back b s) (drop_back-NotEndsIn b s) keep)
]

-- A text that does not end in the byte is left alone.
pub drop_back-fixed : (b : ℕ) (s : Bytes) → NotEndsIn b s → drop_back b s ≡ s
unfolding drop_back
drop_back-fixed b [] h = refl
drop_back-fixed b (c ∷ []) h = ground arith
drop_back-fixed b (c ∷ d ∷ s) h = ground (arith, drop_back-fixed b (d ∷ s) h)
