-- ===== src/Tests/Connections.antt =====
-- Two processes connect over a key-value space that is a function.
use lc.Base.{
  ℕ, zero, suc, ◌+◌, ◌*◌, ◌^◌, ◌<◌, ◌≡◌, ◌≢◌, refl, ap, List, [], ◌∷◌, Option, none, some, Bool,
  true, false, ◌&&◌, ◌==◌, arith, if◌then◌else◌, get_or, inl, inr, Bool-cases,
}
use lc.Pm.{Kvs, pm_key}
use lc.Ibv.Connect.{Job, gid_of, Link, publish_all, connect}
use lc.Ibv.Connect.Paired.{Has, Once, InWidth, connect-paired}

abbrev same_text : List ℕ → List ℕ → Bool
same_text [] [] = true
same_text [] (y ∷ ys) = false
same_text (x ∷ xs) [] = false
same_text (x ∷ xs) (y ∷ ys) = (x == y) && same_text xs ys

pub same_text_refl : (xs : List ℕ) → same_text xs xs ≡ true
same_text_refl [] = refl
same_text_refl (x ∷ xs) = ground (arith, same_text_refl xs)

same_text-eq : (xs ys : List ℕ) → same_text xs ys ≡ true → xs ≡ ys
same_text-eq [] [] e = refl
same_text-eq [] (y ∷ ys) e = cc
same_text-eq (x ∷ xs) [] e = cc
same_text-eq (x ∷ xs) (y ∷ ys) e = ground (arith, same_text-eq xs ys)

abbrev write : (List ℕ → Option (List ℕ)) → List ℕ → List ℕ → List ℕ → Option (List ℕ)
write s k v j = if same_text k j then some v else s j

pub write_other : (s : List ℕ → Option (List ℕ)) (k j v : List ℕ) → k ≢ j → write s k v j ≡ s j
write_other s k j v ne = elim (Bool-cases (same_text k j)) [
  | inl e ↦ absurd (ne (same_text-eq k j e))
  | inr e ↦ rw e refl
]

abbrev pub space : Kvs
space = record {
  Space = List ℕ → Option (List ℕ);
  put = write;
  get = λ s k. s k;
  get-put_self = λ s k v fresh. ap (λ t. if t then some v else s k) (same_text_refl k);
  get-put_ne = write_other;
}

abbrev job : Job
job = record {
  heap_of = λ r. 2 ^ 20 * (r + 1);
  rkey_of = λ r. 3_000_000_000 + r;
  lid_of = λ r. 17;
  qp_num = λ r i. 100 * r + i;
}

job-InWidth : InWidth job 2
job-InWidth = record {
  heap_of = λ r h. omega arith;
  rkey_of = λ r h. omega arith;
  lid_of = λ r h. omega arith;
  qp_num = λ r i h k. omega arith;
}

-- Process 1 is ahead of process 0.
abbrev order : List (ℕ × ℕ)
order = (1, 0) ∷ (1, 1) ∷ (0, 0) ∷ (0, 1) ∷ []

order-Once : Once 2 order
order-Once = (
  omega arith,
  omega arith,
  λ h. ground arith,
  (
    omega arith,
    omega arith,
    λ h. ground arith,
    (omega arith, omega arith, λ h. ground arith, (omega arith, omega arith, λ h. h, tt)),
  ),
)

order-Has : (r i : ℕ) → r < 2 → i < 2 → Has r i order
order-Has zero zero h k = inr (inr (inl (refl, refl)))
order-Has zero (suc zero) h k = inr (inr (inr (inl (refl, refl))))
order-Has (suc zero) zero h k = inl (refl, refl)
order-Has (suc zero) (suc zero) h k = inr (inl (refl, refl))
order-Has (suc (suc r)) i h k = absurd (omega arith)
order-Has zero (suc (suc i)) h k = absurd (omega arith)
order-Has (suc zero) (suc (suc i)) h k = absurd (omega arith)

connect-paired_example :
    (ls : List Link) × (connect space job 0
        (publish_all space job 0 (λ k. none) order)
        (λ i. 50 + i)
        0
        2
        0
      ≡ some ls)
    × ((p : ℕ)
        → p < 2
        → get_or ls p (record { rank = 0; handle = 0; rkey = 0; base = 0; dest = 0 }) ≡ record {
          rank = p;
          handle = 50 + p;
          rkey = 3_000_000_000 + p;
          base = 2 ^ 20 * (p + 1);
          dest = 100 * p + 0;
        })
connect-paired_example =
    connect-paired space job 0 2 (omega arith) (omega arith) order (λ k. none) (λ i. 50 + i) 0
      job-InWidth order-Once order-Has (λ r i h k. refl) (omega arith)

-- With more than 256 processes a second device has keys of the first.
keys_collide : pm_key 3 (gid_of 0 256) ≡ pm_key 3 (gid_of 1 0)
unfolding gid_of
keys_collide = refl
