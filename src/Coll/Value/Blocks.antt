-- ===== src/Coll/Value/Blocks.antt =====
-- The values of recursive doubling (src/coll/ialreduce.h): each doubling joins two blocks.
use lc.Base.{
  ℕ, zero, suc, ◌+◌, ◌-◌, ◌*◌, ◌/◌, ◌%◌, ◌≤◌, ◌<◌, ◌≡◌, ◌⊎◌, inl, inr, sym, ap, ◌∙◌, arith, ltb,
  if◌then◌else◌, bit_xor,
}
use Prim.Native.Nat.{differ}
use native.Mathlib.Decide.{dec_lt}
use native.Mathlib.Nat.{zero-mul, div-eq_of_lt, div-div-eq-div-mul, add-mul, mul_assoc, mul_comm}
use lc.Base.Bits.{pow2, pow2-pos, bit_xor_halves, bit_xor_field, differ-right}

-- `f` of the `n + 1` values from `i` on.
abbrev pub over : {A : Type 0} → (A → A → A) → (ℕ → A) → ℕ → ℕ → A
over f x i zero = x i
over f x i (suc n) = f (over f x i n) (x (i + suc n))

-- What the rank with the number `n` holds after `k` doublings.
abbrev pub held : {A : Type 0} → (A → A → A) → (ℕ → A) → ℕ → ℕ → A
held f x zero n = x n
held f x (suc k) n = f (held f x k n) (held f x k (bit_xor n (pow2 k)))

-- `f` of the block number `q` of `pow2 k` values.
abbrev pub block : {A : Type 0} → (A → A → A) → (ℕ → A) → ℕ → ℕ → A
block f x zero q = x q
block f x (suc k) q = f (block f x k (2 * q)) (block f x k (2 * q + 1))

-- What the rank with the number `n` holds when the low ranks have been folded in.
abbrev pub folded : {A : Type 0} → (A → A → A) → (ℕ → A) → ℕ → ℕ → A
folded f x extra n = if ltb n extra then f (x (n * 2 + 1)) (x (n * 2)) else x (n + extra)

pow2-lt : (n : ℕ) → n < pow2 n
pow2-lt zero = omega arith
pow2-lt (suc n) = omega (arith, pow2-lt n)

bit_xor-zero : (n : ℕ) → bit_xor n 0 ≡ n
bit_xor-zero n =
    sym (ap (bit_xor n) (zero-mul (pow2 n))) ∙ bit_xor_field n 0 n (pow2-lt n) ∙ omega arith

half_twice : (p : ℕ) → 2 * p / 2 ≡ p
half_twice p = omega arith

bit_xor_step :
    (k n : ℕ)
    → (n / pow2 k % 2 ≡ 0) × (bit_xor n (pow2 k) / pow2 k ≡ n / pow2 k + 1)
      ⊎ (n / pow2 k % 2 ≡ 1) × (bit_xor n (pow2 k) / pow2 k + 1 ≡ n / pow2 k)
bit_xor_step zero n =
    let whole = bit_xor_halves n 1 ∙ ap (λ y. differ (n % 2) 1 + 2 * y) (bit_xor-zero (n / 2)) in
    elim (dec_lt (n % 2) 1) [
      | yes even ↦
          let e : n % 2 ≡ 0 = omega arith in
          inl (omega arith, omega (arith, whole ∙ ap (λ b. differ b 1 + 2 * (n / 2)) e))
      | no odd ↦
          let e : n % 2 ≡ 1 = omega arith in
          inr (omega arith, omega (arith, whole ∙ ap (λ b. differ b 1 + 2 * (n / 2)) e))
    ]
bit_xor_step (suc k) n =
    let x = bit_xor n (2 * pow2 k) in
    let halved : x / 2 ≡ bit_xor (n / 2) (pow2 k) =
      let even : 2 * pow2 k % 2 ≡ 0 = omega arith in
      omega (
        arith,
        bit_xor_halves n (2 * pow2 k),
        ap (bit_xor (n / 2)) (half_twice (pow2 k)),
        ap (differ (n % 2)) even ∙ differ-right (n % 2),
      ) in
    let e : x / (2 * pow2 k) ≡ bit_xor (n / 2) (pow2 k) / pow2 k =
      sym (div-div-eq-div-mul x 2 (pow2 k)) ∙ ap (λ y. y / pow2 k) halved in
    omega (arith, bit_xor_step k (n / 2), e, div-div-eq-div-mul n 2 (pow2 k))

module _ {A : Type 0} (f : A → A → A) (assoc : (a b c : A) → f (f a b) c ≡ f a (f b c))
    (comm : (a b : A) → f a b ≡ f b a) (x : ℕ → A) where
  over_join : (i m n : ℕ) → over f x i (m + suc n) ≡ f (over f x i m) (over f x (i + suc m) n)
  over_join i m zero = ap (over f x i) {x = m + 1} {y = suc m} (omega arith)
  over_join i m (suc n) =
      ap (over f x i) {x = m + suc (suc n)} {y = suc (m + suc n)} (omega arith)
      ∙ ap (λ a. f a (x (i + suc (m + suc n)))) (over_join i m n)
      ∙ assoc (over f x i m) (over f x (i + suc m) n) (x (i + suc (m + suc n)))
      ∙ ap (λ j. f (over f x i m) (f (over f x (i + suc m) n) (x j))) (omega arith)

  joined :
      (i j p : ℕ)
      → 0 < p
      → j ≡ i + p
      → f (over f x i (p - 1)) (over f x j (p - 1)) ≡ over f x i (2 * p - 1)
  joined i j p h e =
      ap (λ k. f (over f x i (p - 1)) (over f x k (p - 1))) (omega arith)
      ∙ sym (over_join i (p - 1) (p - 1))
      ∙ ap (over f x i) (omega arith)

  block-over : (k q : ℕ) → block f x k q ≡ over f x (q * pow2 k) (pow2 k - 1)
  block-over zero q = ap x (omega arith)
  block-over (suc k) q =
      let p = pow2 k in
      (λ i. f (block-over k (2 * q) i) (block-over k (2 * q + 1) i))
      ∙ joined (2 * q * p) ((2 * q + 1) * p) p (pow2-pos k) (omega (arith, add-mul (2 * q) 1 p))
      ∙ ap (λ i. over f x i (2 * p - 1)) (omega (arith, mul_assoc q 2 p, mul_comm q 2))

  held-block : (k n : ℕ) → held f x k n ≡ block f x k (n / pow2 k)
  held-block zero n = ap x (omega arith)
  held-block (suc k) n =
      let q = n / pow2 k in
      let half : n / pow2 (suc k) ≡ q / 2 =
        ap (λ d. n / d) (mul_comm 2 (pow2 k)) ∙ sym (div-div-eq-div-mul n (pow2 k) 2) in
      let here : held f x (suc k) n
          ≡ f (block f x k q) (block f x k (bit_xor n (pow2 k) / pow2 k)) =
        λ i. f (held-block k n i) (held-block k (bit_xor n (pow2 k)) i) in
      elim (bit_xor_step k n) [
        | inl (even, up) ↦
            here
            ∙ ap (f (block f x k q)) (ap (block f x k) up)
            ∙ ap (λ j. f (block f x k j) (block f x k (j + 1))) {x = q} {y = 2 * (n / pow2 (suc k))}
                (omega (arith, half, even))
        | inr (odd, down) ↦
            here
            ∙ comm (block f x k q) (block f x k (bit_xor n (pow2 k) / pow2 k))
            ∙ ap (λ j. f (block f x k (bit_xor n (pow2 k) / pow2 k)) (block f x k j)) (sym down)
            ∙ ap (λ j. f (block f x k j) (block f x k (j + 1))) {x = bit_xor n (pow2 k) / pow2 k}
                {y = 2 * (n / pow2 (suc k))} (omega (arith, half, odd, down))
      ]

  swapped : (a b c : A) → f a (f b c) ≡ f (f a c) b
  swapped a b c = ap (f a) (comm b c) ∙ sym (assoc a c b)

  folded-low : (extra n : ℕ) → n < extra → folded f x extra n ≡ f (x (n * 2 + 1)) (x (n * 2))
  folded-low extra n h = ground arith

  folded-high : (extra n : ℕ) → extra ≤ n → folded f x extra n ≡ x (n + extra)
  folded-high extra n h = ground arith

  over-two :
      (m a b : ℕ) → a ≡ suc m → b ≡ suc (suc m) → f (over f x 0 m) (f (x b) (x a)) ≡ over f x 0 b
  over-two m a b e e' =
      let p : a ≡ 0 + suc m = omega arith in
      let q : b ≡ 0 + suc (suc m) = omega arith in
      swapped (over f x 0 m) (x b) (x a)
      ∙ (λ i. f (f (over f x 0 m) (x (p i))) (x (q i)))
      ∙ ap (over f x 0) (sym e')

  over-one : (m a : ℕ) → a ≡ suc m → f (over f x 0 m) (x a) ≡ over f x 0 a
  over-one m a e =
      ap (λ j. f (over f x 0 m) (x j)) {x = a} {y = 0 + suc m} (omega arith)
      ∙ ap (over f x 0) (sym e)

  -- When the numbers up to `m` are folded in, all ranks up to theirs are.
  over-folded :
      (extra m : ℕ)
      → (m < extra → over f (folded f x extra) 0 m ≡ over f x 0 (m * 2 + 1))
        × (extra ≤ m → over f (folded f x extra) 0 m ≡ over f x 0 (m + extra))
  over-folded extra zero = (
    λ h. folded-low extra 0 h ∙ comm (x 1) (x 0),
    λ h.
        folded-high extra 0 h
        ∙ ap x {x = 0 + extra} {y = 0} (omega arith)
        ∙ ap (over f x 0) {x = 0} {y = 0 + extra} (omega arith),
  )
  over-folded extra (suc m) =
      let (low, high) = over-folded extra m in
      let before : extra ≤ suc m → over f (folded f x extra) 0 m ≡ over f x 0 (m + extra) = λ h.
        elim (dec_lt m extra) [
          | yes l ↦ low l ∙ ap (over f x 0) (omega arith)
          | no g ↦ high (omega arith)
        ] in
      (
        λ h.
            (λ i. f (low (omega arith) i) (folded-low extra (0 + suc m) (omega arith) i))
            ∙ over-two (m * 2 + 1) ((0 + suc m) * 2) ((0 + suc m) * 2 + 1) (omega arith)
                (omega arith)
            ∙ ap (over f x 0) (omega arith),
        λ h.
            (λ i. f (before h i) (folded-high extra (0 + suc m) (omega arith) i))
            ∙ over-one (m + extra) (0 + suc m + extra) (omega arith)
            ∙ ap (over f x 0) (omega arith),
      )

-- After `k` doublings among `pow2 k` numbers, every rank holds `f` of the values of all.
pub held-all :
    {A : Type 0} (f : A → A → A)
    → ((a b c : A) → f (f a b) c ≡ f a (f b c))
    → ((a b : A) → f a b ≡ f b a)
    → (x : ℕ → A) (extra k n : ℕ) → n < pow2 k
    → extra < pow2 k
    → held f (folded f x extra) k n ≡ over f x 0 (pow2 k + extra - 1)
held-all f assoc comm x extra k n h e =
    let y = folded f x extra in
    held-block f assoc comm y k n
    ∙ ap (block f y k) {x = n / pow2 k} {y = 0} (omega (arith, div-eq_of_lt h))
    ∙ block-over f assoc comm y k 0
    ∙ ap (λ i. over f y i (pow2 k - 1)) (zero-mul (pow2 k))
    ∙ (over-folded f assoc comm x extra (pow2 k - 1)).1 (omega arith)
    ∙ ap (over f x 0) (omega arith)
