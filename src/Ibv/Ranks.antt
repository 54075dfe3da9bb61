-- ===== src/Ibv/Ranks.antt =====
-- The table `qp2rank` of `lc_server_init` in src/include/server/server_ibv.h: the search for a
-- modulus at which the numbers of the queue pairs do not collide.
pub mod Found
use lc.Base.{
  ℕ, zero, suc, ◌+◌, ◌%◌, List, [], ◌∷◌, Option, none, some, ◌==◌, if◌then◌else◌, length, get_or,
  set, replicate,
}
use lc.Ibv.{Server}

-- The loop over the queue pairs at one modulus: `b` with the slots that are taken, or none at the
-- first that is taken twice.
unfoldable pub marks : ℕ → List ℕ → List ℕ → Option (List ℕ)
marks j b [] = some b
marks j b (q ∷ qs) =
    let rest = marks j (set b (q % j) 1) qs in if get_or b (q % j) 0 == 0 then rest else none

-- The loop over the moduli, on fuel.
unfoldable pub find_mod : ℕ → ℕ → List ℕ → Option (ℕ × List ℕ)
find_mod zero j qs = none
find_mod (suc fuel) j qs = elim (marks j (replicate j 0) qs) [
  | some b ↦ some (j, b)
  | none ↦ find_mod fuel (j + 1) qs
]

-- The last loop: each rank goes to its slot.
unfoldable pub fill : ℕ → ℕ → List ℕ → List ℕ → List ℕ
fill j i [] b = b
fill j i (q ∷ qs) b = fill j (suc i) qs (set b (q % j) i)

abbrev pub with_ranks : Server → List ℕ → Option (ℕ × List ℕ) → Option Server
with_ranks s qs none = none
with_ranks s qs (some (j, b)) = some (record s { qp2rank_mod = j; qp2rank = fill j 0 qs b })

-- `qs` are the numbers of the queue pairs by rank, so their number is `lcg_size`.
unfoldable pub init_ranks : ℕ → Server → List ℕ → Option Server
init_ranks fuel s qs = with_ranks s qs (find_mod fuel (length qs) qs)
