-- ===== src/Ibv/Ranks/Found.antt =====
-- The search for a modulus ends, and the table that it gives finds every rank.
use lc.Base.{
  ℕ, zero, suc, ◌+◌, ◌%◌, ◌≤◌, ◌<◌, ◌≡◌, ◌≢◌, refl, sym, ap, ◌∙◌, List, [], ◌∷◌, none, some, arith,
  true, ◌==◌, if◌then◌else◌, Bool-cases, Option-cases, inl, inr, ◌⊎◌, length, get_or, set,
  replicate, length-set, length-replicate, get_or-set_self, get_or-set_ne,
}
use native.Mathlib.Nat.{mod-eq_of_lt, mod-lt}
use native.Mathlib.Decide.{dec_lt}
use lc.Ibv.{Server}
use lc.Ibv.Progress.{rank_of}
use lc.Ibv.Ranks.{marks, find_mod, fill, with_ranks, init_ranks}

-- A predicate of all numbers of a list.
abbrev pub All : (ℕ → Type 0) → List ℕ → Type 0
All P [] = Unit
All P (q ∷ qs) = P q × All P qs

-- No two numbers are the same, or have the same slot.
abbrev pub Distinct : List ℕ → Type 0
Distinct [] = Unit
Distinct (q ∷ qs) = All (λ r. r ≢ q) qs × Distinct qs

abbrev Separate : ℕ → List ℕ → Type 0
Separate j [] = Unit
Separate j (q ∷ qs) = All (λ r. r % j ≢ q % j) qs × Separate j qs

-- The slots of all numbers are free.
abbrev Blank : ℕ → List ℕ → List ℕ → Type 0
Blank j b qs = All (λ q. get_or b (q % j) 0 ≡ 0) qs

-- If a marked table is blank at the others, they have other slots and it was blank there.
unmarked :
    (j k : ℕ) (b qs : List ℕ)
    → k < length b
    → Blank j (set b k 1) qs
    → All (λ r. r % j ≢ k) qs × Blank j b qs
unmarked j k b [] h z = (tt, tt)
unmarked j k b (q ∷ qs) h z =
    let (apart, blank) = unmarked j k b qs h z.1 in
    let ne : q % j ≢ k =
      λ e. omega (arith, z.0, get_or-set_self b k 1 0 h, ap (λ i. get_or (set b k 1) i 0) e) in
    let free : get_or b (q % j) 0 ≡ 0 = sym (get_or-set_ne b 1 0 (λ e. ne (sym e))) ∙ z.0 in
    ((ne, apart), (free, blank))

marked : (j k : ℕ) (b qs : List ℕ) → All (λ r. r % j ≢ k) qs → Blank j b qs → Blank j (set b k 1) qs
marked j k b [] a z = tt
marked j k b (q ∷ qs) a z = (get_or-set_ne b 1 0 (λ e. a.0 (sym e)) ∙ z.0, marked j k b qs a.1 z.1)

-- The loop at one modulus comes through exactly where the slots are separate.
marks-Separate :
    (j : ℕ) (b b' qs : List ℕ)
    → 0 < j
    → length b ≡ j
    → marks j b qs ≡ some b'
    → Separate j qs × Blank j b qs × (length b' ≡ j)
unfolding marks
marks-Separate j b b' [] pos len e =
    (tt, tt, ap (λ o. elim o [ none ↦ 0 | some l ↦ length l ]) (sym e) ∙ len)
marks-Separate j b b' (q ∷ qs) pos len e = elim (Bool-cases (get_or b (q % j) 0 == 0)) [
  | inl free ↦
      let k : ℕ = q % j in
      let inside : k < length b = omega (arith, len, mod-lt q pos) in
      let rest : marks j (set b k 1) qs ≡ some b' =
        sym (ap (λ t. if t then marks j (set b k 1) qs else none) free) ∙ e in
      let (sep, blank, len') =
        marks-Separate j (set b k 1) b' qs pos (length-set b k 1 ∙ len) rest in
      let (apart, blank0) = unmarked j k b qs inside blank in
      ((apart, sep), (ground (arith, free), blank0), len')
  | inr taken ↦ cc (sym (ap (λ t. if t then marks j (set b (q % j) 1) qs else none) taken) ∙ e)
]

marks-total :
    (j : ℕ) (b qs : List ℕ)
    → Separate j qs
    → Blank j b qs
    → (b' : List ℕ) × (marks j b qs ≡ some b')
unfolding marks
marks-total j b [] s z = (b, refl)
marks-total j b (q ∷ qs) s z =
    let k : ℕ = q % j in
    let (b', e) = marks-total j (set b k 1) qs s.1 (marked j k b qs s.0 z.1) in
    let free : (get_or b k 0 == 0) ≡ true = ground (arith, z.0) in
    (b', ap (λ t. if t then marks j (set b k 1) qs else none) free ∙ e)

-- A rank's slot is read as it was unless a later number has it.
fill-other :
    (j i k : ℕ) (b qs : List ℕ)
    → All (λ r. r % j ≢ k) qs
    → get_or (fill j i qs b) k 0 ≡ get_or b k 0
unfolding fill
fill-other j i k b [] a = refl
fill-other j i k b (q ∷ qs) a =
    fill-other j (suc i) k (set b (q % j) i) qs a.1 ∙ get_or-set_ne b i 0 a.0

fill-rank :
    (j i n : ℕ) (b qs : List ℕ)
    → 0 < j
    → length b ≡ j
    → Separate j qs
    → n < length qs
    → get_or (fill j i qs b) (get_or qs n 0 % j) 0 ≡ i + n
unfolding fill
fill-rank j i n b [] pos len s h = absurd (omega arith)
fill-rank j i zero b (q ∷ qs) pos len s h =
    let inside : q % j < length b = omega (arith, len, mod-lt q pos) in
    fill-other j (suc i) (q % j) (set b (q % j) i) qs s.0
    ∙ get_or-set_self b (q % j) i 0 inside
    ∙ omega arith
fill-rank j i (suc n) b (q ∷ qs) pos len s h =
    fill-rank j (suc i) n (set b (q % j) i) qs pos (length-set b (q % j) i ∙ len) s.1 (omega arith)
    ∙ omega arith

-- An empty table is blank.
get_or-replicate : (n k : ℕ) → get_or {A = ℕ} (replicate n 0) k 0 ≡ 0
get_or-replicate zero k = refl
get_or-replicate (suc n) zero = refl
get_or-replicate (suc n) (suc k) = get_or-replicate n k

Blank-replicate : (j n : ℕ) (qs : List ℕ) → Blank j (replicate n 0) qs
Blank-replicate j n [] = tt
Blank-replicate j n (q ∷ qs) = (get_or-replicate n (q % j), Blank-replicate j n qs)

-- At a modulus above all numbers each is its own slot.
Distinct-Separate : (j : ℕ) (qs : List ℕ) → All (λ q. q < j) qs → Distinct qs → Separate j qs
Distinct-Separate j [] below d = tt
Distinct-Separate j (q ∷ qs) below d =
    (apart q qs below.0 below.1 d.0, Distinct-Separate j qs below.1 d.1)
  where
    apart :
        (q : ℕ) (rs : List ℕ)
        → q < j
        → All (λ r. r < j) rs
        → All (λ r. r ≢ q) rs
        → All (λ r. r % j ≢ q % j) rs
    apart q [] h hs d = tt
    apart q (r ∷ rs) h hs d =
        (λ e. d.0 (sym (mod-eq_of_lt hs.0) ∙ e ∙ mod-eq_of_lt h), apart q rs h hs.1 d.1)

All-weaken : (j j' : ℕ) (qs : List ℕ) → j ≤ j' → All (λ q. q < j) qs → All (λ q. q < j') qs
All-weaken j j' [] h a = tt
All-weaken j j' (q ∷ qs) h a = (omega (arith, a.0), All-weaken j j' qs h a.1)

-- A modulus from the first one to the bound, if that is larger, and its marked table.
abbrev Good : ℕ → ℕ → List ℕ → ℕ → List ℕ → Type 0
Good first bound qs j b = (first ≤ j) × ((j ≡ first) ⊎ (j ≤ bound)) × Separate j qs × (length b ≡ j)

find_mod-found :
    (fuel j : ℕ) (b qs : List ℕ)
    → marks j (replicate j 0) qs ≡ some b
    → find_mod (suc fuel) j qs ≡ some (j, b)
unfolding find_mod
find_mod-found fuel j b qs e = rw (e, find_mod) refl

find_mod-next :
    (fuel j : ℕ) (qs : List ℕ)
    → marks j (replicate j 0) qs ≡ none
    → find_mod (suc fuel) j qs ≡ find_mod fuel (j + 1) qs
unfolding find_mod
find_mod-next fuel j qs e = rw (e, find_mod) refl

find_mod-total :
    (fuel first bound : ℕ) (qs : List ℕ)
    → 0 < first
    → bound < first + fuel
    → 0 < fuel
    → All (λ q. q < bound) qs
    → Distinct qs
    → (j : ℕ) × (b : List ℕ) × (find_mod fuel first qs ≡ some (j, b)) × Good first bound qs j b
find_mod-total zero first bound qs pos enough more below d = absurd (omega arith)
find_mod-total (suc fuel) first bound qs pos enough more below d =
    elim (Option-cases (marks first (replicate first 0) qs)) [
      | inr (b, e) ↦
          let (sep, blank, len) =
            marks-Separate first (replicate first 0) b qs pos (length-replicate first 0) e in
          (first, b, find_mod-found fuel first b qs e, (omega arith, inl refl, sep, len))
      | inl e ↦
          let small : first < bound = elim (dec_lt first bound) [
            | yes h ↦ h
            | no h ↦ absurd (stuck first bound qs (omega arith) below d e)
          ] in
          let (j, b, found, good) =
            find_mod-total fuel (first + 1) bound qs (omega arith) (omega arith) (omega arith) below
              d in
          (
            j,
            b,
            find_mod-next fuel first qs e ∙ found,
            (omega (arith, good.0), inr (lower first bound j small good.1), good.2, good.3),
          )
    ]
  where
    lower : (first bound j : ℕ) → first < bound → (j ≡ first + 1) ⊎ (j ≤ bound) → j ≤ bound
    lower first bound j h (inl e) = omega arith
    lower first bound j h (inr le) = le

    stuck :
        (first bound : ℕ) (qs : List ℕ)
        → bound ≤ first
        → All (λ q. q < bound) qs
        → Distinct qs
        → marks first (replicate first 0) qs ≡ none
        → ⊥
    stuck first bound qs h below d e =
        let apart = Distinct-Separate first qs (All-weaken bound first qs h below) d in
        let (b, came) =
          marks-total first (replicate first 0) qs apart (Blank-replicate first first qs) in
        cc (came, e)

-- For at least one process, with different numbers of queue pairs below a bound and as much fuel,
-- the search ends at a modulus from the number of processes to the bound or that number, and the
-- table gives the rank of every queue pair by its number.
pub init_ranks-finds :
    (fuel bound : ℕ) (s : Server) (qs : List ℕ)
    → 0 < length qs
    → bound ≤ fuel
    → All (λ q. q < bound) qs
    → Distinct qs
    → (s' : Server) × (init_ranks fuel s qs ≡ some s')
      × ((s'.qp2rank_mod ≡ length qs) ⊎ (s'.qp2rank_mod ≤ bound))
      × ((n : ℕ) → n < length qs → rank_of s' (get_or qs n 0) ≡ n)
unfolding init_ranks rank_of
init_ranks-finds fuel bound s qs pos enough below d =
    let (j, b, found, (first, upper, sep, len)) =
      find_mod-total fuel (length qs) bound qs pos (omega arith)
        (omega (arith, bounded qs pos below)) below d in
    (
      record s { qp2rank_mod = j; qp2rank = fill j 0 qs b },
      ap (with_ranks s qs) found,
      upper,
      λ n h. fill-rank j 0 n b qs (omega arith) len sep h ∙ omega arith,
    )
  where
    bounded : (rs : List ℕ) → 0 < length rs → All (λ q. q < bound) rs → 0 < bound
    bounded [] h a = absurd (omega arith)
    bounded (q ∷ rs) h a = omega (arith, a.0)
