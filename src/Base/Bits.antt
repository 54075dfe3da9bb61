-- ===== src/Base/Bits.antt =====
-- C's `&`, `|`, `^` with masks, single bits and disjoint fields, as arithmetic on every number.
use Prim.Native.Nat.{
  ℕ, zero, suc, ◌+◌, ◌-◌, ◌*◌, ◌/◌, ◌%◌, ◌≤◌, ◌<◌, min, max, bit_and, bit_or, bit_xor, digits,
  differ, bit_and-bitwise, bit_or-bitwise, bit_xor-bitwise,
}
use mathlib.Core.Path.{◌≡◌, refl, ap, ◌∙◌}
use native.Mathlib.Omega.{arith}

-- `1 << k`, and the mask of the low `k` bits.
abbrev pub pow2 : ℕ → ℕ
pow2 zero = 1
pow2 (suc k) = 2 * pow2 k

abbrev pub mask : ℕ → ℕ
mask zero = 0
mask (suc k) = 2 * mask k + 1

pub pow2-pos : (k : ℕ) → 0 < pow2 k
pow2-pos zero = omega arith
pow2-pos (suc k) = omega (arith, pow2-pos k)

-- The native operations run through the binary digits on a count, of which more than enough does
-- no harm.
module _ (past : ℕ → ℕ) (op : ℕ → ℕ → ℕ) where
  digits-one_more :
      (count a b : ℕ) → a ≤ count → digits past op (suc count) a b ≡ digits past op count a b
  digits-one_more zero zero b le = refl
  digits-one_more (suc count) zero b le = refl
  digits-one_more zero (suc a) b le = absurd (omega arith)
  digits-one_more (suc count) (suc a) b le =
      let rest = digits-one_more count (suc a / 2) (b / 2) (omega arith) in
      ap (λ high. high * 2 + op (suc a % 2) (b % 2)) rest

  digits-more :
      (extra count all a b : ℕ)
      → all ≡ extra + count
      → a ≤ count
      → digits past op all a b ≡ digits past op count a b
  digits-more zero count all a b e le =
      let same : all ≡ count = omega arith in ap (λ n. digits past op n a b) same
  digits-more (suc extra) count all a b e le =
      let next : all ≡ suc (extra + count) = omega arith in
      ap (λ n. digits past op n a b) next
      ∙ digits-one_more (extra + count) a b (omega arith)
      ∙ digits-more extra count (extra + count) a b refl le

  -- The digits above the lowest one, with the count that they need themselves.
  digits-halved :
      (a b : ℕ) → digits past op a (suc a / 2) b ≡ digits past op (suc a / 2) (suc a / 2) b
  digits-halved a b =
      digits-more (a - suc a / 2) (suc a / 2) a (suc a / 2) b (omega arith) (omega arith)

-- No digits on the left.
zero-bit_and : (y : ℕ) → bit_and 0 y ≡ 0
zero-bit_and = bit_and-bitwise 0

zero-bit_or : (y : ℕ) → bit_or 0 y ≡ y
zero-bit_or = bit_or-bitwise 0

zero-bit_xor : (y : ℕ) → bit_xor 0 y ≡ y
zero-bit_xor = bit_xor-bitwise 0

-- The lowest digit is the digits' own, the others are those of the halves.
pub bit_and_halves : (x y : ℕ) → bit_and x y ≡ min (x % 2) (y % 2) + 2 * bit_and (x / 2) (y / 2)
bit_and_halves zero y = omega (arith, zero-bit_and (y / 2), zero-bit_and y)
bit_and_halves (suc x) y =
    let high = digits-halved (λ _. zero) min x (y / 2) in
    omega (arith, high, bit_and-bitwise (suc x / 2) (y / 2), bit_and-bitwise (suc x) y)

pub bit_or_halves : (x y : ℕ) → bit_or x y ≡ max (x % 2) (y % 2) + 2 * bit_or (x / 2) (y / 2)
bit_or_halves zero y = omega (arith, zero-bit_or (y / 2), zero-bit_or y)
bit_or_halves (suc x) y =
    let high = digits-halved (λ d. d) max x (y / 2) in
    omega (arith, high, bit_or-bitwise (suc x / 2) (y / 2), bit_or-bitwise (suc x) y)

differ-zero : (b : ℕ) → b < 2 → differ 0 b ≡ b
differ-zero zero h = refl
differ-zero (suc zero) h = refl
differ-zero (suc (suc b)) h = absurd (omega arith)

differ-lt : (a b : ℕ) → a < 2 → b < 2 → differ a b < 2
differ-lt zero b ha hb = hb
differ-lt (suc zero) zero ha hb = omega arith
differ-lt (suc zero) (suc zero) ha hb = omega arith
differ-lt (suc zero) (suc (suc b)) ha hb = absurd (omega arith)
differ-lt (suc (suc a)) b ha hb = absurd (omega arith)

pub differ-right : (a : ℕ) → differ a 0 ≡ a
differ-right zero = refl
differ-right (suc a) = refl

pub bit_xor_halves : (x y : ℕ) → bit_xor x y ≡ differ (x % 2) (y % 2) + 2 * bit_xor (x / 2) (y / 2)
bit_xor_halves zero y =
    omega (arith, zero-bit_xor (y / 2), zero-bit_xor y, differ-zero (y % 2) (omega arith))
bit_xor_halves (suc x) y =
    let high = digits-halved (λ d. d) differ x (y / 2) in
    omega (arith, high, bit_xor-bitwise (suc x / 2) (y / 2), bit_xor-bitwise (suc x) y)

-- `& 0` clears every digit.
cleared : (count a : ℕ) → digits (λ _. zero) min count a 0 ≡ 0
cleared zero a = refl
cleared (suc count) zero = refl
cleared (suc count) (suc a) = omega (arith, cleared count (suc a / 2))

pub bit_and-zero : (a : ℕ) → bit_and a 0 ≡ 0
bit_and-zero a = omega (arith, bit_and-bitwise a 0, cleared a a)

bit_and_fields : (k q r : ℕ) → r < pow2 k → bit_and (q * pow2 k + r) (mask k) ≡ r
bit_and_fields zero q r h = omega (arith, bit_and-zero (q * 1 + r))
bit_and_fields (suc k) q r h = ground (
  arith,
  bit_and_halves (q * pow2 (suc k) + r) (mask (suc k)),
  halved,
  bit_and_fields k q (r / 2) (omega arith),
)
  where
    halved : (q * pow2 (suc k) + r) / 2 ≡ q * pow2 k + r / 2
    halved = omega arith

-- `x & ((1 << k) - 1)` is the remainder.
pub bit_and-mask : (k a : ℕ) → bit_and a (mask k) ≡ a % pow2 k
bit_and-mask k a = ground (arith, pow2-pos k, bit_and_fields k (a / pow2 k) (a % pow2 k))

bit_and_bit_fields : (k q r : ℕ) → r < pow2 k → bit_and (q * pow2 k + r) (pow2 k) ≡ q % 2 * pow2 k
bit_and_bit_fields zero q r h =
    omega (arith, bit_and_halves (q * 1 + r) 1, bit_and-zero ((q * 1 + r) / 2))
bit_and_bit_fields (suc k) q r h = ground (
  arith,
  bit_and_halves (q * pow2 (suc k) + r) (pow2 (suc k)),
  halved,
  bit_and_bit_fields k q (r / 2) (omega arith),
)
  where
    halved : (q * pow2 (suc k) + r) / 2 ≡ q * pow2 k + r / 2
    halved = omega arith

-- `x & (1 << k)` isolates the bit `k`.
pub bit_and_bit : (k a : ℕ) → bit_and a (pow2 k) ≡ a / pow2 k % 2 * pow2 k
bit_and_bit k a = ground (arith, pow2-pos k, bit_and_bit_fields k (a / pow2 k) (a % pow2 k))

-- `r | (q << k)` is a sum when `r` fits `k` bits.
pub bit_or_field : (k q r : ℕ) → r < pow2 k → bit_or r (q * pow2 k) ≡ r + q * pow2 k
bit_or_field zero q r h = ground (arith, zero-bit_or (q * 1))
bit_or_field (suc k) q r h =
    ground
      (arith, bit_or_halves r (q * pow2 (suc k)), halved, bit_or_field k q (r / 2) (omega arith))
  where
    halved : q * pow2 (suc k) / 2 ≡ q * pow2 k
    halved = omega arith

pub bit_or-zero_field : (k a : ℕ) → a < pow2 k → bit_or a 0 ≡ a
bit_or-zero_field k a h = ground (arith, bit_or_field k 0 a h)

-- So it is with the field first.
pub bit_or_field_left :
    (k m q r : ℕ) → q < pow2 m → r < pow2 k → bit_or (q * pow2 k) r ≡ q * pow2 k + r
bit_or_field_left zero m q r hq h = ground (arith, bit_or-zero_field m (q * 1) (omega arith))
bit_or_field_left (suc k) m q r hq h = ground (
  arith,
  bit_or_halves (q * pow2 (suc k)) r,
  halved,
  bit_or_field_left k m q (r / 2) hq (omega arith),
)
  where
    halved : q * pow2 (suc k) / 2 ≡ q * pow2 k
    halved = omega arith

-- `^` of a number and a field above it is a sum too.
pub bit_xor_field : (k q r : ℕ) → r < pow2 k → bit_xor r (q * pow2 k) ≡ r + q * pow2 k
bit_xor_field zero q r h = ground (arith, zero-bit_xor (q * 1))
bit_xor_field (suc k) q r h = ground (
  arith,
  bit_xor_halves r (q * pow2 (suc k)),
  halved,
  even,
  differ-right (r % 2),
  bit_xor_field k q (r / 2) (omega arith),
)
  where
    halved : q * pow2 (suc k) / 2 ≡ q * pow2 k
    halved = omega arith

    even : q * pow2 (suc k) % 2 ≡ 0
    even = omega arith

-- `^` stays within the width of its operands.
pub bit_xor-lt : (k a b : ℕ) → a < pow2 k → b < pow2 k → bit_xor a b < pow2 k
bit_xor-lt zero a b ha hb = ground (arith, zero-bit_xor b)
bit_xor-lt (suc k) a b ha hb = omega (
  arith,
  bit_xor_halves a b,
  bit_xor-lt k (a / 2) (b / 2) (omega arith) (omega arith),
  differ-lt (a % 2) (b % 2) (omega arith) (omega arith),
)

differ-twice : (a b : ℕ) → a < 2 → b < 2 → differ (differ a b) b ≡ a
differ-twice zero zero ha hb = refl
differ-twice zero (suc zero) ha hb = refl
differ-twice (suc zero) zero ha hb = refl
differ-twice (suc zero) (suc zero) ha hb = refl
differ-twice a (suc (suc b)) ha hb = absurd (omega arith)
differ-twice (suc (suc a)) b ha hb = absurd (omega arith)

-- Two times `^` with one number does nothing.
pub bit_xor-twice : (k a b : ℕ) → a < pow2 k → b < pow2 k → bit_xor (bit_xor a b) b ≡ a
bit_xor-twice zero a b ha hb =
    let za : a ≡ 0 = omega arith in let zb : b ≡ 0 = omega arith in rw (za, zb)
bit_xor-twice (suc k) a b ha hb =
    let x : ℕ = bit_xor a b in
    let d : ℕ = differ (a % 2) (b % 2) in
    let d2 : d < 2 = differ-lt (a % 2) (b % 2) (omega arith) (omega arith) in
    let half : x / 2 ≡ bit_xor (a / 2) (b / 2) = omega (arith, bit_xor_halves a b) in
    let low : x % 2 ≡ d = omega (arith, bit_xor_halves a b) in
    omega (
      arith,
      bit_xor_halves x b,
      ap (λ y. bit_xor y (b / 2)) half,
      ap (λ y. differ y (b % 2)) low,
      bit_xor-twice k (a / 2) (b / 2) (omega arith) (omega arith),
      differ-twice (a % 2) (b % 2) (omega arith) (omega arith),
    )

differ_self : (a b : ℕ) → a < 2 → b < 2 → differ a b ≡ a → b ≡ 0
differ_self zero b ha hb e = e
differ_self (suc zero) zero ha hb e = refl
differ_self (suc zero) (suc zero) ha hb e = absurd (omega arith)
differ_self (suc zero) (suc (suc b)) ha hb e = absurd (omega arith)
differ_self (suc (suc a)) b ha hb e = absurd (omega arith)

-- Only `^ 0` changes nothing.
pub bit_xor_self : (k a b : ℕ) → a < pow2 k → b < pow2 k → bit_xor a b ≡ a → b ≡ 0
bit_xor_self zero a b ha hb e = omega arith
bit_xor_self (suc k) a b ha hb e =
    let d2 = differ-lt (a % 2) (b % 2) (omega arith) (omega arith) in
    let high =
      bit_xor_self k (a / 2) (b / 2) (omega arith) (omega arith)
        (omega (arith, bit_xor_halves a b)) in
    let low =
      differ_self (a % 2) (b % 2) (omega arith) (omega arith) (omega (arith, bit_xor_halves a b)) in
    omega (arith, high, low)

-- A number and a field above it share no digit.
pub bit_and-field : (k q r : ℕ) → r < pow2 k → bit_and r (q * pow2 k) ≡ 0
bit_and-field zero q r h = ground (arith, zero-bit_and (q * 1))
bit_and-field (suc k) q r h =
    ground
      (arith, bit_and_halves r (q * pow2 (suc k)), halved, bit_and-field k q (r / 2) (omega arith))
  where
    halved : q * pow2 (suc k) / 2 ≡ q * pow2 k
    halved = omega arith
