-- ===== src/Pm/Decimal.antt =====
-- Numbers that are printed and read back, and the keys of src/pm.c.
use lc.Base.{
  ℕ, zero, suc, ◌+◌, ◌-◌, ◌*◌, ◌/◌, ◌%◌, ◌^◌, ◌≤◌, ◌<◌, ◌≡◌, refl, sym, ap, ◌∙◌, List, [], ◌∷◌,
  Option, none, some, arith, true, false, ◌==◌, ltb, if◌then◌else◌, Bool-cases, inl, inr, length,
}
use lc.Pm.{
  digits, print_llu, print_d, is_digit, starts_digit, scan_digits, scan_llu, scan_d, negated,
  pm_key,
}

abbrev pow10 : ℕ → ℕ
pow10 zero = 1
pow10 (suc f) = 10 * pow10 f

digits-last :
    (f n : ℕ) (out : List ℕ) → (n / 10 == 0) ≡ true → digits (suc f) n out ≡ (48 + n % 10) ∷ out
unfolding digits
digits-last f n out e = rw e refl

digits-more :
    (f n : ℕ) (out : List ℕ)
    → (n / 10 == 0) ≡ false
    → digits (suc f) n out ≡ digits f (n / 10) ((48 + n % 10) ∷ out)
unfolding digits
digits-more f n out e = rw e refl

-- One more digit.
scan_digits-cons :
    (a d : ℕ) (out : List ℕ)
    → d < 10
    → scan_digits a ((48 + d) ∷ out) ≡ scan_digits (a * 10 + d) out
unfolding scan_digits
scan_digits-cons a d out h =
    let c : ℕ = 48 + d in
    let is : is_digit c ≡ true = ground arith in
    ap (λ t. if t then scan_digits (a * 10 + (c - 48)) out else (a, c ∷ out)) is
    ∙ ap (λ x. scan_digits x out) {x = a * 10 + (c - 48)} {y = a * 10 + d} (omega arith)

-- Reading the digits of a number before a text is to have read the number.
scan_digits-digits :
    (f n : ℕ) (out : List ℕ)
    → 0 < f
    → n < pow10 f
    → scan_digits 0 (digits f n out) ≡ scan_digits n out
scan_digits-digits zero n out pos h = absurd (omega arith)
scan_digits-digits (suc f) n out pos h =
    let step = scan_digits-cons (n / 10) (n % 10) out (omega arith) in
    let whole : scan_digits (n / 10 * 10 + n % 10) out ≡ scan_digits n out =
      ap (λ x. scan_digits x out) {x = n / 10 * 10 + n % 10} {y = n} (omega arith) in
    elim (Bool-cases (n / 10 == 0)) [
      | inl last ↦
          let z : 0 ≡ n / 10 = ground (arith, last) in
          ap (scan_digits 0) (digits-last f n out last)
          ∙ ap (λ a. scan_digits a ((48 + n % 10) ∷ out)) z
          ∙ step
          ∙ whole
      | inr more ↦
          ap (scan_digits 0) (digits-more f n out more)
          ∙ scan_digits-digits f (n / 10) ((48 + n % 10) ∷ out) (positive f n h more) (omega arith)
          ∙ step
          ∙ whole
    ]
  where
    positive : (f n : ℕ) → n < pow10 (suc f) → (n / 10 == 0) ≡ false → 0 < f
    positive zero n h more = ground (arith, more, h)
    positive (suc f) n h more = omega arith

starts-digits :
    (f n : ℕ) (out : List ℕ) → 0 < f → n < pow10 f → starts_digit (digits f n out) ≡ true
starts-digits zero n out pos h = absurd (omega arith)
starts-digits (suc zero) n out pos h =
    let last : (n / 10 == 0) ≡ true = ground (arith, h) in
    ap starts_digit (digits-last 0 n out last) ∙ ground arith
starts-digits (suc (suc f)) n out pos h = elim (Bool-cases (n / 10 == 0)) [
  | inl last ↦ ap starts_digit (digits-last (suc f) n out last) ∙ ground arith
  | inr more ↦
      ap starts_digit (digits-more (suc f) n out more)
      ∙ starts-digits (suc f) (n / 10) ((48 + n % 10) ∷ out) (omega arith) (omega arith)
]

length-digits : (f n : ℕ) (out : List ℕ) → length (digits f n out) ≤ f + length out
unfolding digits
length-digits zero n out = omega arith
length-digits (suc f) n out = ground (arith, length-digits f (n / 10) ((48 + n % 10) ∷ out))

-- Nothing is read from a text that does not begin with a digit.
scan_digits-stop :
    (n : ℕ) (rest : List ℕ) → starts_digit rest ≡ false → scan_digits n rest ≡ (n, rest)
unfolding scan_digits
scan_digits-stop n [] e = refl
scan_digits-stop n (c ∷ cs) e = rw e refl

read :
    (n : ℕ) (rest : List ℕ)
    → n < 2 ^ 64
    → starts_digit rest ≡ false
    → scan_digits 0 (digits 20 n rest) ≡ (n, rest)
read n rest h e =
    scan_digits-digits 20 n rest (omega arith) (omega arith) ∙ scan_digits-stop n rest e

starts : (n : ℕ) (rest : List ℕ) → n < 2 ^ 64 → starts_digit (digits 20 n rest) ≡ true
starts n rest h = starts-digits 20 n rest (omega arith) (omega arith)

-- `%llu` is read back as it was printed, and leaves what follows.
pub scan-print_llu :
    (n : ℕ) (rest : List ℕ)
    → n < 2 ^ 64
    → starts_digit rest ≡ false
    → scan_llu (print_llu n rest) ≡ some (n, rest)
unfolding scan_llu print_llu
scan-print_llu n rest h e =
    ap (λ t. if t then some (scan_digits 0 (digits 20 n rest)) else none) (starts n rest h)
    ∙ ap some (read n rest h e)

scan_d-digits : (cs : List ℕ) → starts_digit cs ≡ true → scan_d cs ≡ some (scan_digits 0 cs)
unfolding scan_d
scan_d-digits [] e = cc
scan_d-digits (c ∷ cs) e =
    let plain : (c == b'-') ≡ false = ground (arith, e) in
    ap
      (λ t.
        if t
        then (if starts_digit cs then some (negated (scan_digits 0 cs)) else none)
        else (if is_digit c then some (scan_digits 0 (c ∷ cs)) else none))
      plain
    ∙ ap (λ t. if t then some (scan_digits 0 (c ∷ cs)) else none) e

scan_d-minus :
    (cs : List ℕ) → starts_digit cs ≡ true → scan_d (b'-' ∷ cs) ≡ some (negated (scan_digits 0 cs))
unfolding scan_d
scan_d-minus cs e = ap (λ t. if t then some (negated (scan_digits 0 cs)) else none) e

-- So is `%d`, on all 32 bits.
pub scan-print_d :
    (n : ℕ) (rest : List ℕ)
    → n < 2 ^ 32
    → starts_digit rest ≡ false
    → scan_d (print_d n rest) ≡ some (n, rest)
unfolding print_d
scan-print_d n rest h e =
    let m : ℕ = 2 ^ 32 - n in
    elim (Bool-cases (ltb n (2 ^ 31))) [
      | inl small ↦
          ap (λ t. scan_d (if t then digits 20 n rest else b'-' ∷ digits 20 m rest)) small
          ∙ scan_d-digits (digits 20 n rest) (starts n rest (omega arith))
          ∙ ap some (read n rest (omega arith) e)
      | inr big ↦
          let back : (2 ^ 32 - m) % 2 ^ 32 ≡ n = omega arith in
          ap (λ t. scan_d (if t then digits 20 n rest else b'-' ∷ digits 20 m rest)) big
          ∙ scan_d-minus (digits 20 m rest) (starts m rest (omega arith))
          ∙ ap (λ r. some (negated r)) (read m rest (omega arith) e)
          ∙ ap (λ k. some (k, rest)) back
    ]

abbrev drop : ℕ → List ℕ → List ℕ
drop zero l = l
drop (suc n) [] = []
drop (suc n) (x ∷ l) = drop n l

abbrev read_out : Option (ℕ × List ℕ) → ℕ × List ℕ
read_out none = (0, [])
read_out (some r) = r

-- Different processes or different numbers have different keys.
pub pm_key-injective :
    (rank gid rank' gid' : ℕ)
    → rank < 2 ^ 32
    → gid < 2 ^ 32
    → rank' < 2 ^ 32
    → gid' < 2 ^ 32
    → pm_key rank gid ≡ pm_key rank' gid'
    → (rank ≡ rank') × (gid ≡ gid')
unfolding pm_key
pm_key-injective rank gid rank' gid' hr hg hr' hg' e =
    let t = b'_' ∷ print_d gid [] in
    let t' = b'_' ∷ print_d gid' [] in
    let ranks : some (rank, t) ≡ some (rank', t') =
      sym (scan-print_d rank t hr refl)
      ∙ ap (λ k. scan_d (drop 8 k)) e
      ∙ scan-print_d rank' t' hr' refl in
    let gids : ◌≡◌ {A = Option (ℕ × List ℕ)} (some (gid, [])) (some (gid', [])) =
      sym (scan-print_d gid [] hg refl)
      ∙ ap (λ o. scan_d (drop 1 (read_out o).1)) ranks
      ∙ scan-print_d gid' [] hg' refl in
    (ap (λ o. (read_out o).0) ranks, ap (λ o. (read_out o).0) gids)

pub length-print_llu : (n : ℕ) (out : List ℕ) → length (print_llu n out) ≤ 20 + length out
unfolding print_llu
length-print_llu n out = length-digits 20 n out

pub length-print_d : (n : ℕ) (out : List ℕ) → length (print_d n out) ≤ 21 + length out
unfolding print_d
length-print_d n out = ground (arith, length-digits 20 n out, length-digits 20 (2 ^ 32 - n) out)
