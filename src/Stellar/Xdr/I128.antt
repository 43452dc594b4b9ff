-- ===== src/Stellar/Xdr/I128.antt =====
-- `ScvI128` and `DecodeI128` undo one another, on exactly the integers of 128 bits.
use tallybook.Prelude.{
  ℕ, ◌+◌, ◌-◌, ◌*◌, ◌/◌, ◌%◌, ◌^◌, ◌<◌, ◌≡◌, refl, ap, true, false, some, arith, Bool-cases, inl,
  inr, take, drop,
}
use tallybook.Prelude.Int.{ℤ, pos, negsuc, ◌≤ℤ◌}
use tallybook.Prelude.Result.{ok, err}
use tallybook.Stellar.ScVal.{ScVal, Int128Parts}
use tallybook.Stellar.Xdr.{
  XdrError, i128_min, i128_max, fill_bytes, big_endian, to_int64, to_uint64, unsigned_of, in_i128,
  i128_parts, i128_value, scv_i128, decode_i128,
}

high_half : (x : ℕ) → x < 2 ^ 128 → big_endian (take 8 (fill_bytes 16 x)) ≡ x / 2 ^ 64
unfolding fill_bytes big_endian
high_half x h = omega arith

low_half : (x : ℕ) → big_endian (drop 8 (fill_bytes 16 x)) ≡ x % 2 ^ 64
unfolding fill_bytes big_endian
low_half x = omega arith

-- The integers of an i128, and the parts that an int64 and a uint64 can hold.
abbrev pub IsI128 : ℤ → Type 0
IsI128 v = (i128_min ≤ℤ v) × (v ≤ℤ i128_max)

abbrev pub FitsParts : Int128Parts → Type 0
FitsParts p = (negsuc (2 ^ 63 - 1) ≤ℤ p.hi) × (p.hi ≤ℤ pos (2 ^ 63 - 1)) × (p.lo < 2 ^ 64)

pub in_i128-true : (v : ℤ) → IsI128 v → in_i128 v ≡ true
unfolding in_i128
in_i128-true v h = ground arith

pub in_i128-false : (v : ℤ) → ¬ (IsI128 v) → in_i128 v ≡ false
unfolding in_i128
in_i128-false v h = ground arith

pub IsI128-of_in_i128 : (v : ℤ) → in_i128 v ≡ true → IsI128 v
unfolding in_i128
IsI128-of_in_i128 v h = ground arith

unsigned_lt : (v : ℤ) → IsI128 v → unsigned_of v < 2 ^ 128
unfolding unsigned_of
unsigned_lt (pos n) h = omega arith
unsigned_lt (negsuc n) h = omega arith

-- The two halves of `v`, with the byte buffer computed away.
parts_halves :
    (v : ℤ)
    → IsI128 v
    → i128_parts v ≡ record { hi = to_int64 (unsigned_of v / 2 ^ 64); lo = unsigned_of v % 2 ^ 64 }
unfolding i128_parts
parts_halves v h = rw (high_half (unsigned_of v) (unsigned_lt v h), low_half (unsigned_of v))

value_halves :
    (v : ℤ)
    → IsI128 v
    → i128_value (record { hi = to_int64 (unsigned_of v / 2 ^ 64); lo = unsigned_of v % 2 ^ 64 })
      ≡ v
unfolding i128_value unsigned_of to_int64
value_halves (pos n) h = ground arith
value_halves (negsuc n) h = ground arith

pub i128_value-i128_parts : (v : ℤ) → IsI128 v → i128_value (i128_parts v) ≡ v
i128_value-i128_parts v h = rw (parts_halves v h) (value_halves v h)

-- `ScvI128` accepts every integer from -2^127 to 2^127 - 1, and `DecodeI128` reads that integer
-- back from the value that it built.
pub decode_i128-scv_i128 :
    (v : ℤ) → IsI128 v → (w : ScVal) × (scv_i128 (some v) ≡ ok w) × (decode_i128 w ≡ ok v)
unfolding scv_i128 decode_i128
decode_i128-scv_i128 v h =
    (ScVal.i128 (i128_parts v), rw (in_i128-true v h), ap ok (i128_value-i128_parts v h))

-- `ScvI128` refuses every integer outside the range from -2^127 to 2^127 - 1, and names it.
pub scv_i128_range : (v : ℤ) → ¬ (IsI128 v) → scv_i128 (some v) ≡ err (XdrError.out_of_i128_range v)
unfolding scv_i128
scv_i128_range v h = rw (in_i128-false v h)

-- Two halves, joined to an integer and split again.
value_range :
    (hi : ℤ) (lo : ℕ)
    → FitsParts (record { hi = hi; lo = lo })
    → IsI128 (i128_value (record { hi = hi; lo = lo }))
unfolding i128_value to_uint64
value_range (pos n) lo h = ground arith
value_range (negsuc n) lo h = ground arith

value_unsigned :
    (hi : ℤ) (lo : ℕ)
    → FitsParts (record { hi = hi; lo = lo })
    → unsigned_of (i128_value (record { hi = hi; lo = lo })) ≡ to_uint64 hi * 2 ^ 64 + lo
unfolding i128_value to_uint64 unsigned_of
value_unsigned (pos n) lo h = ground arith
value_unsigned (negsuc n) lo h = ground arith

to_int64-to_uint64 :
    (z : ℤ) → negsuc (2 ^ 63 - 1) ≤ℤ z → z ≤ℤ pos (2 ^ 63 - 1) → to_int64 (to_uint64 z) ≡ z
unfolding to_int64 to_uint64
to_int64-to_uint64 (pos n) l u = ground arith
to_int64-to_uint64 (negsuc n) l u = ground arith

-- Every pair of halves that the wire can carry is the encoding of the integer that `DecodeI128`
-- reads from it.
pub scv_i128-decode_i128 :
    (p : Int128Parts)
    → FitsParts p
    → (v : ℤ) × (decode_i128 (ScVal.i128 p) ≡ ok v) × (scv_i128 (some v) ≡ ok (ScVal.i128 p))
unfolding scv_i128 decode_i128
scv_i128-decode_i128 p h =
    let range : IsI128 (i128_value p) = value_range p.hi p.lo h in
    let high : unsigned_of (i128_value p) / 2 ^ 64 ≡ to_uint64 p.hi =
      rw (value_unsigned p.hi p.lo h) (omega arith) in
    let low : unsigned_of (i128_value p) % 2 ^ 64 ≡ p.lo =
      rw (value_unsigned p.hi p.lo h) (omega arith) in
    (
      i128_value p,
      refl,
      rw (
        in_i128-true (i128_value p) range,
        parts_halves (i128_value p) range,
        high,
        low,
        to_int64-to_uint64 p.hi h.0 h.1,
      ),
    )

-- Whatever value `ScvI128` builds from an integer decodes to that integer.
pub decode_scv_i128 : (v : ℤ) (w : ScVal) → scv_i128 (some v) ≡ ok w → decode_i128 w ≡ ok v
unfolding scv_i128 decode_i128
decode_scv_i128 v w e = elim (Bool-cases (in_i128 v)) [
  | inr f ↦ ground arith
  | inl t ↦
      let made : ScVal.i128 (i128_parts v) ≡ w = ground arith in
      rw (← made) (ap ok (i128_value-i128_parts v (IsI128-of_in_i128 v t)))
]
