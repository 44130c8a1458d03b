-- ===== src/Case/Numbers.antt =====
-- A finite JSON number as Python holds it, an `int` or a `float`: a signed multiple of a power of
-- two, so that comparisons are exact.
use qualityci.Prelude.{
  ℕ, ◌+◌, ◌*◌, ◌^◌, ◌≡◌, Bool, true, ◌&&◌, arith, leb, eqb, if◌then◌else◌, nat_eq, string_eq,
  pair_eq,
}

pub record Number : Type 0 where
  pub negative : Bool
  pub mantissa : ℕ
  pub exponent : ℕ

-- Both mantissas over the common denominator `2 ^ (a.exponent + b.exponent)`.
abbrev pub scaled : Number → Number → ℕ
scaled a b = a.mantissa * 2 ^ b.exponent

-- `a <= b`
abbrev pub number_leb : Number → Number → Bool
number_leb a b =
    if a.negative
    then (if b.negative then leb (scaled b a) (scaled a b) else true)
    else (if b.negative then eqb (scaled a b + scaled b a) 0 else leb (scaled a b) (scaled b a))

-- `a == b`
abbrev pub number_eqb : Number → Number → Bool
number_eqb a b = number_leb a b && number_leb b a

pub number_leb_refl : (a : Number) → number_leb a a ≡ true
number_leb_refl a = ground arith
