-- ===== src/Ring.antt =====
-- The circular arrays of include/lc/dequeue.h and src/include/cq.h: what a stretch of such an
-- array holds, for any size.
use lc.Base.{
  ℕ, zero, suc, ◌+◌, ◌-◌, ◌*◌, ◌%◌, ◌≤◌, ◌<◌, ◌≡◌, ◌≢◌, ◌⊎◌, inl, inr, refl, sym, ap, ◌∙◌, List, [],
  ◌∷◌, ◌++◌, arith, length, get_or, set, length-append, get_or-set_self, get_or-set_ne,
}
use native.Mathlib.Nat.{add-zero, mod-eq_of_lt, mod-eq-sub-mod, mod-add-mod}
use native.Mathlib.Decide.{dec_lt}

-- The `n` pointers from index `from` on, going round at `size`; out of range reads NULL.
abbrev pub window : List ℕ → ℕ → ℕ → ℕ → List ℕ
window buf size from zero = []
window buf size from (suc n) = window buf size from n ++ get_or buf ((from + n) % size) 0 ∷ []

pub length-window : (buf : List ℕ) (size from n : ℕ) → length (window buf size from n) ≡ n
length-window buf size from zero = refl
length-window buf size from (suc n) = omega (
  arith,
  length-append (window buf size from n) (get_or buf ((from + n) % size) 0 ∷ []),
  length-window buf size from n,
)

-- One trip past the end of the array.
pub wrap_cases :
    (size x : ℕ) → x < 2 * size → (x < size) × (x % size ≡ x) ⊎ (size ≤ x) × (x % size ≡ x - size)
wrap_cases size x h = elim (dec_lt x size) [
  | yes p ↦ inl (p, mod-eq_of_lt p)
  | no p ↦ inr (
    omega arith,
    mod-eq-sub-mod {n = x} {m = size} (omega arith)
        ∙ mod-eq_of_lt {n = x - size} {m = size} (omega arith),
  )
]

-- Two indices of one stretch that is no longer than the array differ.
wrap_ne :
    (size from i j : ℕ) → from < size → i < j → j < size → (from + j) % size ≢ (from + i) % size
wrap_ne size from i j hf hij hj =
    omega
      (arith, wrap_cases size (from + i) (omega arith), wrap_cases size (from + j) (omega arith))

-- A write at a later index leaves the stretch alone.
window-set_after :
    (buf : List ℕ) (size from n j v : ℕ)
    → from < size
    → n ≤ j
    → j < size
    → window (set buf ((from + j) % size) v) size from n ≡ window buf size from n
window-set_after buf size from zero j v hf hn hj = refl
window-set_after buf size from (suc n) j v hf hn hj = rw (
  window-set_after buf size from n j v hf (omega arith) hj,
  get_or-set_ne buf v 0 (wrap_ne size from n j hf (omega arith) hj),
)

-- Writing just past a stretch extends it.
pub window-push :
    (buf : List ℕ) (size from n v : ℕ)
    → length buf ≡ size
    → from < size
    → n < size
    → window (set buf ((from + n) % size) v) size from (suc n) ≡ window buf size from n ++ v ∷ []
window-push buf size from n v hl hf hn = rw (
  window-set_after buf size from n n v hf (omega arith) hn,
  get_or-set_self buf ((from + n) % size) v 0 (omega (arith, hl)),
)

-- A stretch begins with what stands at its first index.
pub window-head :
    (buf : List ℕ) (size from n : ℕ)
    → from < size
    → window buf size from (suc n) ≡ get_or buf from 0 ∷ window buf size ((from + 1) % size) n
window-head buf size from zero hf = rw (add-zero, mod-eq_of_lt hf)
window-head buf size from (suc n) hf =
    ap (λ l. l ++ get_or buf ((from + suc n) % size) 0 ∷ []) (window-head buf size from n hf)
    ∙ ap (λ k. get_or buf from 0 ∷ (window buf size ((from + 1) % size) n ++ get_or buf k 0 ∷ []))
        shift
  where
    shift : (from + suc n) % size ≡ ((from + 1) % size + n) % size
    shift = ap (λ k. k % size) (omega arith) ∙ sym (mod-add-mod (from + 1) size n)

-- `(top - bot) mod size`, and what stands from `bot` up to `top`.
abbrev pub count : ℕ → ℕ → ℕ → ℕ
count size top bot = (top + size - bot) % size

abbrev pub held : List ℕ → ℕ → ℕ → ℕ → List ℕ
held buf size top bot = window buf size bot (count size top bot)

module _ (size top bot : ℕ) (ht : top < size) (hb : bot < size) where
  pub count-push :
      (top + 1) % size ≢ bot → count size ((top + 1) % size) bot ≡ suc (count size top bot)
  count-push h = omega (
    arith,
    wrap_cases size (top + 1) (omega arith),
    wrap_cases size (top + size - bot) (omega arith),
    wrap_cases size ((top + 1) % size + size - bot) (omega arith),
  )

  pub count-lt : (top + 1) % size ≢ bot → count size top bot + 1 < size
  count-lt h = omega (
    arith,
    wrap_cases size (top + 1) (omega arith),
    wrap_cases size (top + size - bot) (omega arith),
  )

  pub count_full : (top + 1) % size ≡ bot → count size top bot + 1 ≡ size
  count_full h = omega (
    arith,
    wrap_cases size (top + 1) (omega arith),
    wrap_cases size (top + size - bot) (omega arith),
  )

  count-pop_top : top ≢ bot → count size top bot ≡ suc (count size ((top + size - 1) % size) bot)
  count-pop_top h = omega (
    arith,
    wrap_cases size (top + size - 1) (omega arith),
    wrap_cases size (top + size - bot) (omega arith),
    wrap_cases size ((top + size - 1) % size + size - bot) (omega arith),
  )

  count-pop_bot : top ≢ bot → count size top bot ≡ suc (count size top ((bot + 1) % size))
  count-pop_bot h = omega (
    arith,
    wrap_cases size (bot + 1) (omega arith),
    wrap_cases size (top + size - bot) (omega arith),
    wrap_cases size (top + size - (bot + 1) % size) (omega arith),
  )

  bot-add-count : (bot + count size top bot) % size ≡ top
  bot-add-count = omega (
    arith,
    wrap_cases size (top + size - bot) (omega arith),
    wrap_cases size (bot + count size top bot) (omega arith),
  )

  module _ (buf : List ℕ) where
    pub held-push :
        (p : ℕ)
        → length buf ≡ size
        → (top + 1) % size ≢ bot
        → held (set buf top p) size ((top + 1) % size) bot ≡ held buf size top bot ++ p ∷ []
    held-push p hl h =
        ap (window (set buf top p) size bot) (count-push h)
        ∙ ap (λ i. window (set buf i p) size bot (suc (count size top bot))) (sym bot-add-count)
        ∙ window-push buf size bot (count size top bot) p hl hb (omega (arith, count-lt h))

    pub held-empty : top ≡ bot → held buf size top bot ≡ []
    held-empty h = ap (window buf size bot) zero_count
      where
        zero_count : count size top bot ≡ 0
        zero_count = omega (arith, wrap_cases size (top + size - bot) (omega arith))

    pub held-pop_bot :
        top ≢ bot → held buf size top bot ≡ get_or buf bot 0 ∷ held buf size top ((bot + 1) % size)
    held-pop_bot h =
        ap (window buf size bot) (count-pop_bot h)
        ∙ window-head buf size bot (count size top ((bot + 1) % size)) hb

module _ (size top bot : ℕ) (ht : top < size) (hb : bot < size) (buf : List ℕ) where
  -- Taking the last pointer leaves the stretch up to it.
  pub held-pop_top :
      top ≢ bot
      → held buf size top bot
        ≡ held buf size ((top + size - 1) % size) bot ++ get_or buf ((top + size - 1) % size) 0 ∷ []
  held-pop_top h =
      let below : ℕ = (top + size - 1) % size in
      ap (window buf size bot) (count-pop_top size top bot ht hb h)
      ∙ ap (λ i. window buf size bot (count size below bot) ++ get_or buf i 0 ∷ [])
          (bot-add-count size below bot (omega arith) hb)
