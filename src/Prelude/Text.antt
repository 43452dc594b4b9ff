-- ===== src/Prelude/Text.antt =====
-- The text functions of Go's standard library that the code calls, on byte strings. Where a text
-- has a byte of 128 or more, `strings.ToUpper`, `strings.ToLower` and `strings.TrimSpace` go by the
-- Unicode tables: that case is the parameter `Unicode`.
use Prim.Native.Nat.{ℕ, zero, suc, ◌+◌, ◌-◌, ◌*◌}
use mathlib.Core.Path.{◌≡◌, refl}
use mathlib.Core.Bool.{Bool, true, false, ◌&&◌, ◌||◌}
use mathlib.Core.Option.{Option, none, some}
use mathlib.Core.List.{[], ◌∷◌, map, reverse}
use native.Mathlib.Omega.{arith}
use tallybook.Prelude.Tests.{ltb, leb, ◌==◌, if◌then◌else◌}
use tallybook.Prelude.Bytes.{Bytes}
use tallybook.Prelude.Int.{ℤ, pos, negsuc}

pub record Unicode : Type 0 where
  pub upper_wide : Bytes → Bytes
  pub lower_wide : Bytes → Bytes
  pub trim_wide : Bytes → Bytes

unfoldable pub is_ascii : Bytes → Bool
is_ascii [] = true
is_ascii (b ∷ bs) = ltb b 128 && is_ascii bs

unfoldable pub upper_byte : ℕ → ℕ
upper_byte b = if leb b'a' b && leb b b'z' then b - 32 else b

-- `strings.ToUpper(s)`
unfoldable pub to_upper : Unicode → Bytes → Bytes
unfolding is_ascii upper_byte
to_upper u s = if is_ascii s then map upper_byte s else u.upper_wide s

unfoldable pub lower_byte : ℕ → ℕ
lower_byte b = if leb b'A' b && leb b b'Z' then b + 32 else b

-- `strings.ToLower(s)`
unfoldable pub to_lower : Unicode → Bytes → Bytes
unfolding is_ascii lower_byte
to_lower u s = if is_ascii s then map lower_byte s else u.lower_wide s

-- The ASCII white space: tab, line feed, vertical tab, form feed, carriage return and space.
unfoldable pub is_space : ℕ → Bool
is_space b = (leb 9 b && leb b 13) || b == 32

unfoldable pub trim_left : Bytes → Bytes
unfolding is_space
trim_left [] = []
trim_left (b ∷ bs) = if is_space b then trim_left bs else b ∷ bs

-- `strings.TrimSpace(s)`
unfoldable pub trim_space : Unicode → Bytes → Bytes
unfolding is_ascii trim_left
trim_space u s = if is_ascii s then reverse (trim_left (reverse (trim_left s))) else u.trim_wide s

unfoldable pub is_empty : Bytes → Bool
is_empty [] = true
is_empty (b ∷ bs) = false

-- `strings.HasPrefix(s, "/")`
unfoldable pub starts_with_slash : Bytes → Bool
starts_with_slash [] = false
starts_with_slash (b ∷ bs) = b == b'/'

-- `new(big.Int).SetString(s, 10)`: digits behind an optional sign.
unfoldable pub parse_digits : ℕ → Bytes → Option ℕ
parse_digits acc [] = some acc
parse_digits acc (d ∷ ds) =
    let rest = parse_digits (acc * 10 + (d - b'0')) ds in
    if leb b'0' d && leb d b'9' then rest else none

unfoldable pub parse_nat : Bytes → Option ℕ
unfolding parse_digits
parse_nat [] = none
parse_nat (d ∷ ds) = parse_digits 0 (d ∷ ds)

unfoldable pub negate : ℕ → ℤ
negate zero = pos 0
negate (suc n) = negsuc n

unfoldable pub parse_int : Bytes → Option ℤ
unfolding parse_nat negate
parse_int [] = none
parse_int (c ∷ cs) =
    if c == b'-'
    then elim (parse_nat cs) [ none ↦ none | some n ↦ some (negate n) ]
    else if c == b'+'
    then elim (parse_nat cs) [ none ↦ none | some n ↦ some (pos n) ]
    else elim (parse_nat (c ∷ cs)) [ none ↦ none | some n ↦ some (pos n) ]

upper_byte_idem : (b : ℕ) → upper_byte (upper_byte b) ≡ upper_byte b
unfolding upper_byte
upper_byte_idem b = ground arith

upper_byte-ascii : (b : ℕ) → ltb b 128 ≡ true → ltb (upper_byte b) 128 ≡ true
unfolding upper_byte
upper_byte-ascii b h = ground arith

map-is_ascii : (s : Bytes) → is_ascii s ≡ true → is_ascii (map upper_byte s) ≡ true
unfolding is_ascii
map-is_ascii [] h = refl
map-is_ascii (b ∷ s) h = ground (arith, upper_byte-ascii b, map-is_ascii s)

map-upper_byte_idem : (s : Bytes) → map upper_byte (map upper_byte s) ≡ map upper_byte s
map-upper_byte_idem [] = refl
map-upper_byte_idem (b ∷ s) = rw (upper_byte_idem b, map-upper_byte_idem s)

-- An ASCII text in capitals is not changed further.
pub to_upper_idem :
    (u : Unicode) (s : Bytes) → is_ascii s ≡ true → to_upper u (to_upper u s) ≡ to_upper u s
unfolding to_upper
to_upper_idem u s h = rw (h, map-is_ascii s h) (map-upper_byte_idem s)
