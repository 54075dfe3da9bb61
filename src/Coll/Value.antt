-- ===== src/Coll/Value.antt =====
-- What a schedule of src/coll/ does to the memory of its rank, for a reduction `f`: lc_col_progress
-- of src/coll/common.h with one value for what stands at an address.
use lc.Base.{ℕ, List, [], ◌∷◌, ◌≡◌}
use lc.Engine.{put_at}
use lc.Coll.{Sched, send, recv, sendrecv, op, mem, free}
pub mod Blocks
pub mod Exchange
pub mod Fold
pub mod Messages
pub mod Allreduce
pub mod Broadcast

-- The memory after an entry, where `inbox` is what each rank has sent.
unfoldable pub effect : {A : Type 0} → (A → A → A) → (ℕ → A) → Sched → (ℕ → A) → ℕ → A
effect f inbox (send src size rank tag ep) m = m
effect f inbox (recv src size rank tag ep) m = put_at m src (inbox rank)
effect f inbox (sendrecv src dst size rank tag ep) m = put_at m dst (inbox rank)
effect f inbox (op dst src size) m = put_at m dst (f (m dst) (m src))
effect f inbox (mem dst src size) m = put_at m dst (m src)
effect f inbox (free src) m = m

unfoldable pub after : {A : Type 0} → (A → A → A) → (ℕ → A) → List Sched → (ℕ → A) → ℕ → A
after f inbox [] m = m
after f inbox (s ∷ l) m = after f inbox l (effect f inbox s m)

-- That an entry sends what `outbox` says.
abbrev pub Says : {A : Type 0} → (ℕ → A) → Sched → (ℕ → A) → Type 0
Says outbox (send src size rank tag ep) m = outbox rank ≡ m src
Says outbox (recv src size rank tag ep) m = Unit
Says outbox (sendrecv src dst size rank tag ep) m = outbox rank ≡ m src
Says outbox (op dst src size) m = Unit
Says outbox (mem dst src size) m = Unit
Says outbox (free src) m = Unit

-- That a rank which works off the schedule sends to each rank what `outbox` says.
abbrev pub Sends : {A : Type 0} → (A → A → A) → (ℕ → A) → (ℕ → A) → List Sched → (ℕ → A) → Type 0
Sends f inbox outbox [] m = Unit
Sends f inbox outbox (s ∷ l) m = Says outbox s m × Sends f inbox outbox l (effect f inbox s m)
