-- ===== src/Ibv/Runs.antt =====
-- Runs of the ibv server: calls of the client side and of `lc_server_progress` in any order.
use lc.Base.{
  ℕ, ◌+◌, ◌≤◌, ◌<◌, ◌≡◌, ◌≢◌, refl, sym, ◌∙◌, List, [], ◌∷◌, Option, none, some, Bool, true, false,
  arith, length,
}
use lc.Engine.{World, Build}
use lc.Psm2.{max_rcvs}
use lc.Ibv.{
  Server, Registrar, lc_server_rma_reg, lc_server_rma_dereg, lc_server_sends, lc_server_sendm,
  lc_server_puts, lc_server_putss, lc_server_putm, lc_server_putms, lc_server_putl, lc_server_putls,
  lc_server_rma_rtr,
}
use lc.Ibv.Progress.{Wc, refill, recv_loop, send_loop, lc_server_progress}
use lc.Ibv.Window.{posts, posts-append, IsWindow, progress-Counted, progress-IsWindow}

-- One call of the engine or of a client.
pub data Calls (m : Registrar) (s : Server) : Server → Type 0 where
  rma_reg : (buf size : ℕ) → Calls m s (lc_server_rma_reg m s buf size).1
  rma_dereg : (mem : ℕ) → Calls m s (lc_server_rma_dereg s mem)
  sends : (rep buf size word : ℕ) → Calls m s (lc_server_sends s rep buf size word)
  sendm : (rep size p word : ℕ) → Calls m s (lc_server_sendm s rep size p word)
  puts : (rep buf base off key size : ℕ) → Calls m s (lc_server_puts s rep buf base off key size)
  putss :
      (rep buf base off key word size : ℕ)
      → Calls m s (lc_server_putss s rep buf base off key word size)
  putm : (rep base off key size p : ℕ) → Calls m s (lc_server_putm s rep base off key size p)
  putms :
      (rep base off key size word p : ℕ)
      → Calls m s (lc_server_putms s rep base off key size word p)
  putl :
      (rep buf base off key size p : ℕ) → Calls m s (lc_server_putl m s rep buf base off key size p)
  putls :
      (rep buf base off key size word p : ℕ)
      → Calls m s (lc_server_putls m s rep buf base off key size word p)
  rma_rtr :
      (rep buf addr key size sid p : ℕ)
      → Calls m s (lc_server_rma_rtr m s rep buf addr key size sid p)

-- From `s0` on: the receives completed so far, and the state. The network completes receives that
-- were posted, each once.
pub data Run (b : Build) (m : Registrar) (s0 : Server) : ℕ → Server → Type 0 where
  start : Run b m s0 0 s0
  call : {a : ℕ} {s s' : Server} → Run b m s0 a s → Calls m s s' → Run b m s0 a s'
  progress :
      {a a' : ℕ} {s s' : Server}
      → Run b m s0 a s
      → (w w' : World) (recvs : List Wc) (sent : List ℕ) (got local : ℕ) (r : Bool)
      → a' ≡ a + length recvs
      → a' ≤ posts s.verbs
      → lc_server_progress b s w recvs sent got local ≡ some (r, s', w')
      → Run b m s0 a' s'

-- No call touches the window.
abbrev Same : Server → Server → Type 0
Same s s' =
    (s'.recv_posted ≡ s.recv_posted) × (s'.deadlock ≡ s.deadlock) × (posts s'.verbs ≡ posts s.verbs)

Calls-Same : {m : Registrar} {s s' : Server} → Calls m s s' → Same s s'
unfolding lc_server_rma_reg lc_server_rma_dereg lc_server_sends lc_server_sendm lc_server_puts
    lc_server_putss lc_server_putm lc_server_putms lc_server_putl lc_server_putls lc_server_rma_rtr
Calls-Same (rma_reg buf size) = grind (arith, posts-append)
Calls-Same _ = grind (arith, posts-append)

-- Whatever is called in whatever order, from a server with an empty window on: the counter is the
-- number of receives that are posted and not completed, at most 64 are, and the flag is up only
-- while there are fewer.
pub Run-IsWindow :
    {b : Build} {m : Registrar} {s0 : Server} {a : ℕ} {s : Server}
    → IsWindow 0 s0
    → Run b m s0 a s
    → (s.recv_posted + a ≡ posts s.verbs)
      × (s.recv_posted ≤ max_rcvs)
      × (s.deadlock ≡ true → s.recv_posted < max_rcvs)
Run-IsWindow v start = (v.counted, v.bounded, v.raised)
Run-IsWindow v (call r c) =
    let h = Run-IsWindow v r in
    let (n, d, q) = Calls-Same c in
    (omega (arith, h.0, n, q), omega (arith, h.1, n), λ up. omega (arith, h.2 (sym d ∙ up), n))
Run-IsWindow v (progress {a} {a'} {s} {s'} r w w' recvs sent got local t e fits p) =
    let h = Run-IsWindow v r in
    let before : IsWindow a s = record { counted = h.0; bounded = h.1; raised = h.2 } in
    let after =
      progress-IsWindow _ s s' w w' recvs sent a got local t before (omega (arith, h.0)) p in
    (omega (arith, after.counted), after.bounded, after.raised)

-- Calls of `lc_server_progress` at which nothing has happened, one for each packet of the pool.
abbrev pub idle : Build → Server → World → ℕ → List ℕ → Option (Server × World)
idle b s w local [] = some (s, w)
idle b s w local (p ∷ ps) = elim (lc_server_progress b s w [] [] p local) [
  | none ↦ none
  | some (r, s', w') ↦ idle b s' w' local ps
]

abbrev pub NotNull : List ℕ → Type 0
NotNull [] = Unit
NotNull (p ∷ ps) = (p ≢ 0) × NotNull ps

idle_step :
    (b : Build) (s : Server) (w : World) (local p : ℕ)
    → (r : Bool) × (lc_server_progress b s w [] [] p local
        ≡ some (r, (refill p local s w).1, (refill p local s w).2))
unfolding lc_server_progress recv_loop send_loop
idle_step b s w local p = ((refill p local s w).0, refl)

idle-cons :
    (b : Build) (s s1 : Server) (w w1 : World) (local p : ℕ) (ps : List ℕ) (r : Bool)
    → lc_server_progress b s w [] [] p local ≡ some (r, s1, w1)
    → idle b s w local (p ∷ ps) ≡ idle b s1 w1 local ps
idle-cons b s s1 w w1 local p ps r e = rw (e, idle) refl

-- With as many packets as receives are missing, the idle calls return, the window is full and the
-- flag is down.
pub idle-fills :
    (b : Build) (s : Server) (w : World) (local a : ℕ) (ps : List ℕ)
    → IsWindow a s
    → NotNull ps
    → s.recv_posted + length ps ≡ max_rcvs
    → (s' : Server) × (w' : World) × (idle b s w local ps ≡ some (s', w'))
      × (s'.recv_posted ≡ max_rcvs)
      × (s'.deadlock ≡ false)
idle-fills b s w local a [] v n full =
    (s, w, refl, omega (arith, full), ground (arith, v.raised, full))
idle-fills b s w local a (p ∷ ps) v n full =
    let (r, e) = idle_step b s w local p in
    let s1 = (refill p local s w).1 in
    let w1 = (refill p local s w).2 in
    let c = progress-Counted b s s1 w w1 [] [] p local r (omega arith) v.bounded e in
    let v1 = progress-IsWindow b s s1 w w1 [] [] a p local r v (omega arith) e in
    let one_more : s1.recv_posted ≡ s.recv_posted + 1 = ground (arith, c.0, n.0, full) in
    let (s', w', ran, filled, down) =
      idle-fills b s1 w1 local (a + 0) ps v1 n.1 (omega (arith, one_more, full)) in
    (s', w', idle-cons b s s1 w w1 local p ps r e ∙ ran, filled, down)
