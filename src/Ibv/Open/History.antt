-- ===== src/Ibv/Open/History.antt =====
-- The calls that change the state of one queue pair, among those of lc_server_init in
-- src/include/server/server_ibv.h.
use lc.Base.{
  ℕ, zero, suc, ◌+◌, ◌≤◌, ◌<◌, ◌≡◌, ◌≢◌, refl, ap, ◌∙◌, List, [], ◌∷◌, ◌++◌, arith, ◌==◌, ==_refl,
  if◌then◌else◌, Bool-cases, inl, inr, append-nil,
}
use lc.Ibv.Open.{QpAttr}

-- What is asked of the queue pair `h`, in order.
abbrev pub history : ℕ → List (ℕ × QpAttr) → List QpAttr
history h [] = []
history h ((k, x) ∷ l) = if k == h then x ∷ history h l else history h l

-- The same queue pair for each of the attributes.
abbrev pub of_one : ℕ → List QpAttr → List (ℕ × QpAttr)
of_one k [] = []
of_one k (x ∷ xs) = (k, x) ∷ of_one k xs

-- The attributes for each of `n` queue pairs from number `i` on.
abbrev pub of_each : (ℕ → ℕ) → (ℕ → List QpAttr) → ℕ → ℕ → List (ℕ × QpAttr)
of_each q xs i zero = []
of_each q xs i (suc n) = of_one (q i) (xs i) ++ of_each q xs (i + 1) n

pub history-append :
    (h : ℕ) (l m : List (ℕ × QpAttr)) → history h (l ++ m) ≡ history h l ++ history h m
history-append h [] m = refl
history-append h ((k, x) ∷ l) m = elim (Bool-cases (k == h)) [
  | inl same ↦ rw (same, history) (ap (λ r. x ∷ r) (history-append h l m))
  | inr other ↦ rw (other, history) (history-append h l m)
]

history-of_self : (h : ℕ) (xs : List QpAttr) → history h (of_one h xs) ≡ xs
history-of_self h [] = refl
history-of_self h (x ∷ xs) = rw (==_refl h, history) (ap (λ r. x ∷ r) (history-of_self h xs))

history-of_other : (k h : ℕ) (xs : List QpAttr) → k ≢ h → history h (of_one k xs) ≡ []
history-of_other k h [] ne = refl
history-of_other k h (x ∷ xs) ne = ground (arith, ne, history-of_other k h xs ne)

-- Different numbers, from `i` on, have different queue pairs.
abbrev pub Apart : (ℕ → ℕ) → ℕ → Type 0
Apart q n = (i j : ℕ) → i < n → j < n → i ≢ j → q i ≢ q j

module _ (q : ℕ → ℕ) (xs : ℕ → List QpAttr) (size : ℕ) (apart : Apart q size) where
  history-before : (p n i : ℕ) → p < i → i + n ≤ size → history (q p) (of_each q xs i n) ≡ []
  history-before p zero i lt h = refl
  history-before p (suc n) i lt h =
      history-append (q p) (of_one (q i) (xs i)) (of_each q xs (i + 1) n) ∙ (λ t.
        history-of_other (q i) (q p) (xs i)
          (apart i p (omega arith) (omega arith) (λ e. omega (arith, e))) t
        ++ history-before p n (i + 1) (omega arith) (omega arith) t)

  pub history-each :
      (p n i : ℕ) → i ≤ p → p < i + n → i + n ≤ size → history (q p) (of_each q xs i n) ≡ xs p
  history-each p zero i le lt h = absurd (omega arith)
  history-each p (suc n) i le lt h = elim (Bool-cases (i == p)) [
    | inl e ↦
        let same : i ≡ p = ground (arith, e) in
        history-append (q p) (of_one (q i) (xs i)) (of_each q xs (i + 1) n)
        ∙ (λ t.
            (ap (λ k. history (q p) (of_one (q k) (xs k))) same ∙ history-of_self (q p) (xs p)) t
            ++ history-before p n (i + 1) (omega (arith, same)) (omega arith) t)
        ∙ append-nil (xs p)
    | inr e ↦
        let other : i ≢ p = ground (arith, e) in
        history-append (q p) (of_one (q i) (xs i)) (of_each q xs (i + 1) n) ∙ (λ t.
          history-of_other (q i) (q p) (xs i) (apart i p (omega arith) (omega arith) other) t
          ++ history-each p n (i + 1) (omega (arith, other)) (omega arith) (omega arith) t)
  ]
