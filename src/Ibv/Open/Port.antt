-- ===== src/Ibv/Open/Port.antt =====
-- The port, the numbers of the queue pairs and the table of ranks in lc_server_init of
-- src/include/server/server_ibv.h.
use lc.Base.{
  ℕ, zero, suc, ◌+◌, ◌≤◌, ◌<◌, ◌≡◌, ◌≢◌, refl, sym, ap, ◌∙◌, List, [], ◌∷◌, ◌++◌, some, true, arith,
  ◌==◌, length, get_or, Option-cases, Bool-cases, inl, inr,
}
use mathlib.Core.Path.{subst}
use mathlib.Core.Option.{some-injective, none-ne-some}
use lc.Ibv.{Server}
use lc.Ibv.Ranks.{find_mod, with_ranks, init_ranks}
use lc.Ibv.Open.{QpAttr, Library, can_open, has_queues, find_port, open_device, qp_nums}
use lc.Ibv.Open.History.{of_one, of_each}
use lc.Ibv.Open.Loops.{Alike}

-- There is a device with its queues and its heap, and `port` is the first that answers.
pub record Opens (a : Library) (port : ℕ) : Type 0 where
  pub can : can_open a ≡ true
  pub queues : has_queues a ≡ true
  pub closed : (q : ℕ) → q < port → a.query_port q ≢ 0
  pub answers : a.query_port port ≡ 0
  pub below : port < 128

find_port-first :
    (a : Library) (port n p : ℕ)
    → Opens a port
    → p ≤ port
    → port < p + n
    → find_port a n p ≡ some port
unfolding find_port
find_port-first a port zero p o le lt = absurd (omega (arith, le, lt))
find_port-first a port (suc n) p o le lt = elim (Bool-cases (p == port)) [
  | inl e ↦
      let same : p ≡ port = ground (arith, e) in
      ground (arith, ap a.query_port same, o.answers, same)
  | inr e ↦
      let before : p < port = ground (arith, e, le) in
      ground (
        arith,
        o.closed p before,
        find_port-first a port n (p + 1) o (omega (arith, before)) (omega (arith, lt)),
      )
]

pub open_device-port : (a : Library) (port : ℕ) → Opens a port → open_device a ≡ some port
unfolding open_device
open_device-port a port o =
    ground (
      arith,
      o.can,
      o.queues,
      find_port-first a port 128 0 o (omega arith) (omega (arith, o.below)),
    )

-- The numbers of the queue pairs that are created.
abbrev pub numbers : Library → ℕ → ℕ → List ℕ
numbers a zero i = []
numbers a (suc n) i = a.qp_num (a.create_qp i) ∷ numbers a n (i + 1)

pub length-numbers : (a : Library) (n i : ℕ) → length (numbers a n i) ≡ n
length-numbers a zero i = refl
length-numbers a (suc n) i = ap suc (length-numbers a n (i + 1))

pub get_or-numbers :
    (a : Library) (n i k : ℕ) → k < n → get_or (numbers a n i) k 0 ≡ a.qp_num (a.create_qp (i + k))
get_or-numbers a zero i k h = absurd (omega (arith, h))
get_or-numbers a (suc n) i zero h =
    ap (λ j. a.qp_num (a.create_qp j)) {x = i} {y = i + 0} (omega arith)
get_or-numbers a (suc n) i (suc k) h =
    get_or-numbers a n (i + 1) k (omega (arith, h))
    ∙ ap (λ j. a.qp_num (a.create_qp j)) {x = i + 1 + k} {y = i + suc k} (omega arith)

pub qp_nums-numbers :
    (a : Library) (s : Server) (n i : ℕ)
    → ((j : ℕ) → i ≤ j → j < i + n → s.qp j ≡ a.create_qp j)
    → qp_nums a s n i ≡ numbers a n i
unfolding qp_nums
qp_nums-numbers a s zero i same = refl
qp_nums-numbers a s (suc n) i same = λ t.
    a.qp_num (same i (omega arith) (omega arith) t)
    ∷ qp_nums-numbers a s n (i + 1) (λ j le lt. same j (omega (arith, le)) (omega (arith, lt))) t

pub of_each-same :
    (q q' : ℕ → ℕ) (xs : ℕ → List QpAttr) (n i : ℕ)
    → ((j : ℕ) → i ≤ j → j < i + n → q j ≡ q' j)
    → of_each q xs i n ≡ of_each q' xs i n
of_each-same q q' xs zero i same = refl
of_each-same q q' xs (suc n) i same = λ t.
    of_one (same i (omega arith) (omega arith) t) (xs i)
    ++ of_each-same q q' xs n (i + 1) (λ j le lt. same j (omega (arith, le)) (omega (arith, lt))) t

-- The table of ranks leaves all else.
pub record Ranked (s s' : Server) : Type 0 where
  pub alike : Alike s s'
  pub qp : s'.qp ≡ s.qp

pub init_ranks-Ranked :
    (fuel : ℕ) (s s' : Server) (qs : List ℕ) → init_ranks fuel s qs ≡ some s' → Ranked s s'
unfolding init_ranks
init_ranks-Ranked fuel s s' qs e = elim (Option-cases (find_mod fuel (length qs) qs)) [
  | inl stop ↦ absurd (none-ne-some _ (sym (ap (with_ranks s qs) stop) ∙ e))
  | inr (jb, found) ↦
      subst (Ranked s) (some-injective _ _ (sym (ap (with_ranks s qs) found) ∙ e)) (record {
        alike = record { recv_posted = refl; deadlock = refl; verbs = refl; heap = refl };
        qp = refl;
      })
]
