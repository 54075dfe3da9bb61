-- ===== src/Tests/Locks.antt =====
-- Two threads at one lock.
use lc.Base.{refl, arith}
use lc.Lock.{
  Lock, at_set, spins, inside, locked, move, enter, set_free, set_taken, Steps, none, more, fresh,
}
use lc.Lock.Exclusion.{Excludes, Steps-Excludes}

-- Thread 1 holds the lock and thread 2 spins.
abbrev contended : Lock
contended = record {
  flag = locked;
  place = move (move (move (move fresh.place 1 at_set) 2 at_set) 1 inside) 2 spins;
}

steps : Steps fresh contended
steps =
    more (more (more (more none (enter 1 refl)) (enter 2 refl)) (set_free 1 refl refl))
      (set_taken 2 refl (λ e. omega (arith, e)))

Steps-Excludes_example : Excludes contended
Steps-Excludes_example = Steps-Excludes steps
