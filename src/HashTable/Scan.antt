-- ===== src/HashTable/Scan.antt =====
-- What the loop of `lc_hash_insert` finds in a bucket.
use lc.Base.{
  ℕ, zero, suc, ◌+◌, ◌<◌, ◌≡◌, ◌≢◌, inl, inr, refl, ap, List, [], ◌∷◌, ◌++◌, Option, none, some,
  Bool-cases, ◌==◌, if◌then◌else◌, arith, length, set, append_assoc, append-nil, length-append,
}
use mathlib.Core.Path.{subst}
use lc.HashTable.{Entry, Row, empty_tag, slots, write, hit, miss, next_empty, scan}

-- The entries in use, in the order of the slots.
abbrev pub live : List Entry → List Entry
live [] = []
live (e ∷ es) = if e.tag == empty_tag then live es else e ∷ live es

-- The first of some entries with a tag: its value, and the entries without it.
unfoldable pub take_match : ℕ → List Entry → Option (ℕ × List Entry)
take_match tag [] = none
take_match tag (e ∷ es) =
    if e.tag == tag
    then some (e.val, es)
    else (elim (take_match tag es) [ none ↦ none | some (v, rest) ↦ some (v, e ∷ rest) ])

pub slots-write : (rs : List Row) (i : ℕ) (e : Entry) → slots (write rs i e) ≡ set (slots rs) i e
slots-write [] i e = refl
slots-write (r ∷ rs) zero e = refl
slots-write (r ∷ rs) (suc zero) e = refl
slots-write (r ∷ rs) (suc (suc zero)) e = refl
slots-write (r ∷ rs) (suc (suc (suc i))) e =
    ap (λ l. r.first ∷ r.second ∷ r.third ∷ l) (slots-write rs i e)

pub slots-append : (rs qs : List Row) → slots (rs ++ qs) ≡ slots rs ++ slots qs
slots-append [] qs = refl
slots-append (r ∷ rs) qs = ap (λ l. r.first ∷ r.second ∷ r.third ∷ l) (slots-append rs qs)

pub live-append : (es fs : List Entry) → live (es ++ fs) ≡ live es ++ live fs
live-append [] fs = refl
live-append (e ∷ es) fs = ground (arith, live-append es fs)

-- A hit is at the first matching entry in use, and clearing that slot takes the entry out.
pub scan_hit :
    (cmp : ℕ) (es : List Entry) (i : ℕ) (empty : Option ℕ) (j v : ℕ)
    → cmp ≢ empty_tag
    → scan cmp es i empty ≡ hit j v
    → (k : ℕ) × (j ≡ i + k)
      × (take_match cmp (live es) ≡ some (v, live (set es k (record { tag = empty_tag; val = v }))))
unfolding scan take_match
scan_hit cmp [] i empty j v ne h = cc
scan_hit cmp (e ∷ es) i empty j v ne h = elim (Bool-cases (e.tag == cmp)) [
  | inl same ↦ (0, ground arith, ground arith)
  | inr other ↦
      let (k, at, m) = scan_hit cmp es (i + 1) (next_empty e.tag i empty) j v ne (ground arith) in
      (suc k, omega arith, ground (arith, m))
]

set-append :
    (xs ys : List Entry) (k : ℕ) (x : Entry) → k < length xs → set (xs ++ ys) k x ≡ set xs k x ++ ys
set-append [] ys k x h = absurd (omega arith)
set-append (y ∷ xs) ys zero x h = refl
set-append (y ∷ xs) ys (suc k) x h = ap (λ l. y ∷ l) (set-append xs ys k x (omega arith))

set-append_end : (xs : List Entry) (y x : Entry) → set (xs ++ y ∷ []) (length xs) x ≡ xs ++ x ∷ []
set-append_end [] y x = refl
set-append_end (z ∷ xs) y x = ap (λ l. z ∷ l) (set-append_end xs y x)

module _ (x : Entry) (used : x.tag ≢ empty_tag) where
  -- Writing `x` at the slot that `empty` names puts it behind all that is in use in `pre`.
  abbrev pub IsFree : List Entry → Option ℕ → Type 0
  IsFree pre none = Unit
  IsFree pre (some k) = (k < length pre) × (live (set pre k x) ≡ live pre ++ x ∷ [])

  next_empty-IsFree :
      (pre : List Entry) (e : Entry) (empty : Option ℕ)
      → IsFree pre empty
      → IsFree (pre ++ e ∷ []) (next_empty e.tag (length pre) empty)
  next_empty-IsFree pre e none f = elim (Bool-cases (e.tag == empty_tag)) [
    | inl vacant ↦ rw vacant (
      omega (arith, length-append pre (e ∷ [])),
      ground (
        arith,
        set-append_end pre e x,
        live-append pre (x ∷ []),
        live-append pre (e ∷ []),
        append-nil (live pre),
      ),
    )
    | inr taken ↦ rw taken tt
  ]
  next_empty-IsFree pre e (some k) f = elim (Bool-cases (e.tag == empty_tag)) [
    | inl vacant ↦ rw vacant (
      omega (arith, length-append pre (e ∷ [])),
      ground (
        arith,
        set-append pre (e ∷ []) k x,
        live-append (set pre k x) (e ∷ []),
        live-append pre (e ∷ []),
        append-nil (live pre),
        append-nil (live (set pre k x)),
      ),
    )
    | inr taken ↦ rw taken tt
  ]

  -- After a miss no entry in use has the tag, and the slot that was found is behind all in use.
  pub scan_miss :
      (cmp : ℕ) (pre es : List Entry) (empty found : Option ℕ)
      → IsFree pre empty
      → scan cmp es (length pre) empty ≡ miss found
      → (take_match cmp (live es) ≡ none) × IsFree (pre ++ es) found
  unfolding scan take_match
  scan_miss cmp pre [] empty found f h = (refl, rw (append-nil) (subst (IsFree pre) (cc) f))
  scan_miss cmp pre (e ∷ es) empty found f h = elim (Bool-cases (e.tag == cmp)) [
    | inl same ↦ absurd (ground arith)
    | inr other ↦
        let (m, g) =
          scan_miss cmp (pre ++ e ∷ []) es (next_empty e.tag (length pre) empty) found
            (next_empty-IsFree pre e empty f) (ground (arith, length-append pre (e ∷ []))) in
        (ground (arith, m), subst (λ l. IsFree l found) (append_assoc pre (e ∷ []) es) g)
  ]
