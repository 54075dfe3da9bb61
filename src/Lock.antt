-- ===== src/Lock.antt =====
-- include/lc/lock.h: the spin lock, under any interleaving of the threads' atomic steps.
pub mod Exclusion
use lc.Base.{ℕ, ◌≡◌, ◌≢◌, ◌==◌, if◌then◌else◌}

abbrev pub unlocked : ℕ
unlocked = 0

abbrev pub locked : ℕ
locked = 1

-- Where a thread is: outside, at the test-and-set, in the inner loop that reads the flag, at the
-- compare-and-swap, or past `lc_spin_lock`.
pub data Place : Type 0 where
  outside at_set spins at_swap inside : Place

-- The flag, and the place of each thread.
pub record Lock : Type 0 where
  pub flag : ℕ
  pub place : ℕ → Place

abbrev pub move : (ℕ → Place) → ℕ → Place → ℕ → Place
move place t p u = if t == u then p else place u

-- One atomic step of thread `t`.
pub data Step : Lock → Lock → Type 0 where
  -- `lc_spin_lock` is called.
  enter :
      {l : Lock} (t : ℕ) → l.place t ≡ outside → Step l (record l { place = move l.place t at_set })
  -- `__sync_lock_test_and_set(flag, 1)` returned 0.
  set_free :
      {l : Lock} (t : ℕ)
      → l.place t ≡ at_set
      → l.flag ≡ unlocked
      → Step l (record { flag = locked; place = move l.place t inside })
  -- It returned what was not 0.
  set_taken :
      {l : Lock} (t : ℕ)
      → l.place t ≡ at_set
      → l.flag ≢ unlocked
      → Step l (record { flag = locked; place = move l.place t spins })
  -- `while (*flag)` ends.
  seen_free :
      {l : Lock} (t : ℕ)
      → l.place t ≡ spins
      → l.flag ≡ unlocked
      → Step l (record l { place = move l.place t at_swap })
  -- `__sync_val_compare_and_swap(flag, 0, 1)` returned 0.
  swap_free :
      {l : Lock} (t : ℕ)
      → l.place t ≡ at_swap
      → l.flag ≡ unlocked
      → Step l (record { flag = locked; place = move l.place t inside })
  -- It returned what was not 0, and left the flag.
  swap_taken :
      {l : Lock} (t : ℕ)
      → l.place t ≡ at_swap
      → l.flag ≢ unlocked
      → Step l (record l { place = move l.place t spins })
  -- `lc_spin_unlock`, by a thread that holds the lock.
  release :
      {l : Lock} (t : ℕ)
      → l.place t ≡ inside
      → Step l (record { flag = unlocked; place = move l.place t outside })

pub data Steps : Lock → Lock → Type 0 where
  none : {l : Lock} → Steps l l
  more : {l l' l'' : Lock} → Steps l l' → Step l' l'' → Steps l l''

-- Before any thread has called.
abbrev pub fresh : Lock
fresh = record { flag = unlocked; place = λ _. outside }
