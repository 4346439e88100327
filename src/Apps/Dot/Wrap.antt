-- ===== src/Apps/Dot/Wrap.antt =====
-- Wrapped and native amounts.
use native.Mathlib.Nat.{
  mul-div_cancel, le_trans, mul-le-mul_right, div-mul-le_self, lt-div-mul-add, div-lt_iff_lt-mul,
  mul-le-mul,
}
use polkadot_ethereum.Prelude.{
  ◌≡◌, ◌%◌, zero, ◌-◌, ◌*◌, ◌≤◌, arith, suc, some, ◌+◌, ℕ, ◌<◌, ◌/◌, subst,
}
use polkadot_ethereum.Core.{U256}
use polkadot_ethereum.Apps.Dot.{power, wrap, unwrap, granularity}
use polkadot_ethereum.Prelude.Word.{u128_mod, u256_mod}

unit_positive : (n : ℕ) → 1 ≤ power 10 n
unit_positive zero = omega arith
unit_positive (suc n) = omega (arith, unit_positive n)

unit_grows : (k n : ℕ) → power 10 n ≤ power 10 (k + n)
unit_grows zero n =
    let same : n ≡ 0 + n = omega arith in subst (λ m. power 10 n ≤ power 10 m) same (omega arith)
unit_grows (suc k) n =
    let next : suc (k + n) ≡ suc k + n = omega arith in
    subst (λ m. power 10 n ≤ power 10 m) next (omega (arith, unit_grows k n))

unit_at_most : (n : ℕ) → n ≤ 18 → power 10 n ≤ 1000000000000000000
unit_at_most n le =
    let exact : 18 - n + n ≡ 18 = omega arith in
    subst (λ m. power 10 n ≤ power 10 m) exact (unit_grows (18 - n) n)

-- With at most 18 decimals every native amount can be wrapped, and what is unwrapped again is the
-- amount that was wrapped.
pub unwrap-wrap :
    (amount decimals : ℕ)
    → amount < u128_mod
    → decimals ≤ 18
    → (wrapped : U256) × (wrap amount decimals ≡ some wrapped)
      × (unwrap wrapped decimals ≡ some amount)
unfolding wrap unwrap granularity
unwrap-wrap amount decimals small few =
    let unit : ℕ = power 10 (18 - decimals) in
    let positive : 1 ≤ power 10 (18 - decimals) = unit_positive (18 - decimals) in
    let below : amount ≤ u128_mod = omega (arith, small) in
    let unit_small : power 10 (18 - decimals) ≤ 1000000000000000000 =
      unit_at_most (18 - decimals) (omega arith) in
    let product_fits : amount * power 10 (18 - decimals) ≤ u128_mod * 1000000000000000000 =
      mul-le-mul below unit_small in
    let fits : amount * power 10 (18 - decimals) < u256_mod = omega (arith, product_fits) in
    (
      amount * power 10 (18 - decimals),
      ground (arith, few, fits),
      ground (arith, few, positive, small, mul-div_cancel amount positive),
    )

-- What is unwrapped from any value, with at most 18 decimals, is never worth more than the value,
-- and where the value is worth less than 2 ^ 128 native units, the rest is less than one unit.
pub unwrap_bounds :
    (value decimals : ℕ)
    → decimals ≤ 18
    → (amount : ℕ) × (unwrap value decimals ≡ some amount)
      × (amount * power 10 (18 - decimals) ≤ value)
      × (value < u128_mod * power 10 (18 - decimals)
          → value < (amount + 1) * power 10 (18 - decimals))
unfolding unwrap granularity
unwrap_bounds value decimals few =
    let positive : 1 ≤ power 10 (18 - decimals) = unit_positive (18 - decimals) in
    let rest = lt-div-mul-add {a = value} positive in
    let whole = div-mul-le_self value (power 10 (18 - decimals)) in
    let quotient_fits =
      div-lt_iff_lt-mul {k = power 10 (18 - decimals)} {x = value} {y = u128_mod} positive in
    (
      value / power 10 (18 - decimals) % u128_mod,
      ground (arith, few, positive),
      cut (value / power 10 (18 - decimals)) (power 10 (18 - decimals)) whole,
      λ small.
          exact (value / power 10 (18 - decimals)) (power 10 (18 - decimals))
            (quotient_fits.1 small) rest,
    )
  where
    cut : (q g : ℕ) → q * g ≤ value → q % u128_mod * g ≤ value
    cut q g le = le_trans (mul-le-mul_right g (omega arith)) le

    exact : (q g : ℕ) → q < u128_mod → value < q * g + g → value < (q % u128_mod + 1) * g
    exact q g lt up = let same : q % u128_mod ≡ q = omega (arith, lt) in rw same (grind (arith, up))
