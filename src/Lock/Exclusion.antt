-- ===== src/Lock/Exclusion.antt =====
-- Mutual exclusion at the lock of include/lc/lock.h, over the step relation.
use lc.Base.{ℕ, ◌≡◌, ◌≢◌, refl, sym, ap, ◌∙◌, arith, ◌==◌, Bool, true, false, Bool-cases, inl, inr}
use lc.Lock.{
  Lock, Place, outside, at_set, spins, at_swap, inside, unlocked, locked, move, Step, enter,
  set_free, set_taken, seen_free, swap_free, swap_taken, release, Steps, none, more, fresh,
}

-- At most one thread holds the lock, and the flag is not 0 exactly while one does.
pub record Excludes (l : Lock) : Type 0 where
  pub one : (t u : ℕ) → l.place t ≡ inside → l.place u ≡ inside → t ≡ u
  pub held : (t : ℕ) → l.place t ≡ inside → l.flag ≢ unlocked
  pub taken : l.flag ≢ unlocked → (t : ℕ) × (l.place t ≡ inside)

abbrev is_inside : Place → Bool
is_inside inside = true
is_inside outside = false
is_inside at_set = false
is_inside spins = false
is_inside at_swap = false

move_self : (place : ℕ → Place) (t : ℕ) (p : Place) → move place t p t ≡ p
move_self place t p = ground arith

move-ne : (place : ℕ → Place) (t a : ℕ) (p : Place) → t ≢ a → move place t p a ≡ place a
move-ne place t a p n = ground arith

-- After a step to a place that is not inside, who is inside was there before.
move-out :
    (place : ℕ → Place) (t a : ℕ) (p : Place)
    → is_inside p ≡ false
    → move place t p a ≡ inside
    → place a ≡ inside
move-out place t a p o h = elim (Bool-cases (t == a)) [
  | inl e ↦ ground (arith, e, ap is_inside h)
  | inr e ↦ ground (arith, e, h)
]

not_inside : (place : ℕ → Place) (t u : ℕ) → is_inside (place t) ≡ false → place u ≡ inside → t ≢ u
not_inside place t u o h e = ground (arith, o, ap (λ x. is_inside (place x)) e, ap is_inside h)

stay_out :
    {l : Lock} (t flag : ℕ) (p : Place)
    → Excludes l
    → is_inside (l.place t) ≡ false
    → is_inside p ≡ false
    → (l.flag ≢ unlocked → flag ≢ unlocked)
    → (flag ≢ unlocked → l.flag ≢ unlocked)
    → Excludes (record { flag = flag; place = move l.place t p })
stay_out {l} t flag p e was out f b = record {
  one = λ a c x y. e.one a c (move-out l.place t a p out x) (move-out l.place t c p out y);
  held = λ a x. f (e.held a (move-out l.place t a p out x));
  taken = λ n.
      let (u, i) = e.taken (b n) in (u, move-ne l.place t u p (not_inside l.place t u was i) ∙ i);
}

nobody : {l : Lock} → Excludes l → l.flag ≡ unlocked → (a : ℕ) → l.place a ≢ inside
nobody e z a h = e.held a h z

go_in :
    {l : Lock} (t : ℕ)
    → Excludes l
    → l.flag ≡ unlocked
    → Excludes (record { flag = locked; place = move l.place t inside })
go_in {l} t e z = record {
  one = λ a c x y. sym (alone a x) ∙ alone c y;
  held = λ a x. omega arith;
  taken = λ n. (t, move_self l.place t inside);
}
  where
    alone : (a : ℕ) → move l.place t inside a ≡ inside → t ≡ a
    alone a x = elim (Bool-cases (t == a)) [
      | inl y ↦ ground (arith, y)
      | inr n ↦ absurd (nobody e z a (sym (move-ne l.place t a inside (ground (arith, n))) ∙ x))
    ]

come_out :
    {l : Lock} (t : ℕ)
    → Excludes l
    → l.place t ≡ inside
    → Excludes (record { flag = unlocked; place = move l.place t outside })
come_out {l} t e i = record {
  one = λ a c x y.
      e.one a c (move-out l.place t a outside refl x) (move-out l.place t c outside refl y);
  held = λ a x. absurd (gone a x);
  taken = λ n. absurd (n refl);
}
  where
    gone : (a : ℕ) → move l.place t outside a ≢ inside
    gone a x =
        let same = e.one t a i (move-out l.place t a outside refl x) in
        ground (arith, ap is_inside x, same)

Step-Excludes : {l l' : Lock} → Excludes l → Step l l' → Excludes l'
Step-Excludes {l} e (enter t p) = stay_out t l.flag at_set e (ap is_inside p) refl (λ n. n) (λ n. n)
Step-Excludes {l} e (set_free t p z) = go_in t e z
Step-Excludes {l} e (set_taken t p n) =
    stay_out t locked spins e (ap is_inside p) refl (λ _. omega arith) (λ _. n)
Step-Excludes {l} e (seen_free t p z) =
    stay_out t l.flag at_swap e (ap is_inside p) refl (λ n. n) (λ n. n)
Step-Excludes {l} e (swap_free t p z) = go_in t e z
Step-Excludes {l} e (swap_taken t p n) =
    stay_out t l.flag spins e (ap is_inside p) refl (λ n. n) (λ n. n)
Step-Excludes {l} e (release t p) = come_out t e p

-- However the threads interleave, from a fresh lock on at most one of them is past `lc_spin_lock`,
-- and the flag is set exactly while one is: no lock is lost.
pub Steps-Excludes : {l : Lock} → Steps fresh l → Excludes l
Steps-Excludes s = from fresh-Excludes s
  where
    fresh-Excludes : Excludes fresh
    fresh-Excludes = record {
      one = λ t u x y. ground (arith, ap is_inside x);
      held = λ t x. ground (arith, ap is_inside x);
      taken = λ n. absurd (n refl);
    }

    from : {l l' : Lock} → Excludes l → Steps l l' → Excludes l'
    from e none = e
    from e (more s step) = Step-Excludes (from e s) step
