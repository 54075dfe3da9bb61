-- ===== src/Ibv/Open/Ready.antt =====
-- The server after lc_server_init of src/include/server/server_ibv.h.
use lc.Base.{ℕ, ◌+◌, ◌≤◌, ◌<◌, ◌≡◌, sym, ap, ◌∙◌, [], ◌∷◌, ◌++◌, none, some, arith, length, get_or}
use mathlib.Core.Bool.{true≢false}
use lc.Pm.{Kvs, lc_pm_getname}
use lc.Ibv.{Server}
use lc.Ibv.Names.{ConnCtx}
use lc.Ibv.Connect.{gid_of, scanned}
use lc.Ibv.Progress.{rank_of}
use lc.Ibv.Ranks.{init_ranks}
use lc.Ibv.Ranks.Found.{All, Distinct, init_ranks-finds}
use lc.Ibv.Window.{posts, IsWindow}
use lc.Ibv.Open.{
  to_init, to_rtr, to_rts, Library, Opened, first_server, qp_nums, with_server, after_names,
  at_port, lc_server_init,
}
use lc.Ibv.Open.History.{history, of_each, history-append, history-each, Apart}
use lc.Ibv.Open.Loops.{
  Grants, inits, connects, reps_of, Created, Connected, publish_names, create_all-Created,
  connect_all-Connected,
}
use lc.Ibv.Open.Port.{
  get_or-numbers, length-numbers, of_each-same, Ranked, numbers, Opens, open_device-port,
  qp_nums-numbers, init_ranks-Ranked,
}

-- The server can run: its window of receives is empty, each queue pair was initialised, connected
-- to the peer's and made ready to send, in this order and nothing else, `s->rep` has each peer, and
-- the rank of each queue pair is found by its number.
pub record IsReady (a : Library) (port size : ℕ) (c : ℕ → ConnCtx) (o : Opened) : Type 0 where
  pub window : IsWindow 0 o.server
  pub made : (i : ℕ) → i < size → o.server.qp i ≡ a.create_qp i
  pub connected :
      (i : ℕ)
      → i < size
      → history (o.server.qp i) o.setup
        ≡ to_init port ∷ to_rtr port (a.mtu_at port) (c i).qp_num (c i).lid ∷ to_rts ∷ []
  pub reps : o.reps ≡ reps_of o.server.qp c 0 size
  pub ranks : (i : ℕ) → i < size → rank_of o.server (a.qp_num (a.create_qp i)) ≡ i
  pub heap : o.server.heap ≡ a.heap_addr

module _ (a : Library) (port size : ℕ) (c : ℕ → ConnCtx) (apart : Apart a.create_qp size) where
  -- The two loops make the history of each queue pair.
  histories :
      (o1 o2 : Opened)
      → Created a port size 0 (first_server a) o1
      → Connected a port c size 0 o1 o2
      → (i : ℕ) → i < size
      → history (o1.server.qp i) o2.setup
        ≡ to_init port ∷ to_rtr port (a.mtu_at port) (c i).qp_num (c i).lid ∷ to_rts ∷ []
  histories o1 o2 r1 r2 i h =
      let q = a.create_qp in
      let first = of_each q (inits port) 0 size in
      let second = of_each q (connects a port c) 0 size in
      let same =
        of_each-same o1.server.qp q (connects a port c) size 0
          (λ j le lt. r1.inside j (omega arith) (omega (arith, lt))) in
      (λ t.
        history (r1.inside i (omega arith) (omega (arith, h)) t)
          ((r2.setup ∙ (λ u. r1.setup u ++ same u)) t))
      ∙ history-append (q i) first second
      ∙ (λ t.
          history-each q (inits port) size apart i size 0 (omega arith) (omega (arith, h))
            (omega arith) t
          ++ history-each q (connects a port c) size apart i size 0 (omega arith) (omega (arith, h))
              (omega arith) t)

  ready :
      (o1 o2 : Opened) (s : Server)
      → Created a port size 0 (first_server a) o1
      → Connected a port c size 0 o1 o2
      → Ranked o2.server s
      → ((n : ℕ) → n < length (numbers a size 0) → rank_of s (get_or (numbers a size 0) n 0) ≡ n)
      → IsReady a port size c (record o2 { server = s })
  ready o1 o2 s r1 r2 k ranks =
      let qp : s.qp ≡ o1.server.qp = k.qp ∙ ap (λ t. t.qp) r2.server in
      let posted = k.alike.recv_posted ∙ ap (λ t. t.recv_posted) r2.server ∙ r1.alike.recv_posted in
      let none_yet = k.alike.verbs ∙ ap (λ t. t.verbs) r2.server ∙ r1.alike.verbs in
      let down = k.alike.deadlock ∙ ap (λ t. t.deadlock) r2.server ∙ r1.alike.deadlock in
      record {
        window = record {
          counted = omega (arith, posted, ap posts none_yet);
          bounded = omega (arith, posted);
          raised = λ up. absurd (true≢false (sym up ∙ down));
        };
        made = λ i h. (λ t. qp t i) ∙ r1.inside i (omega arith) (omega (arith, h));
        connected = λ i h. (λ t. history (qp t i) o2.setup) ∙ histories o1 o2 r1 r2 i h;
        reps =
            r2.reps
            ∙ ap (λ l. l ++ reps_of o1.server.qp c 0 size) r1.reps
            ∙ (λ t. reps_of (sym qp t) c 0 size);
        ranks = λ i h.
            ap (λ j. rank_of s (a.qp_num (a.create_qp j))) {x = i} {y = 0 + i} (omega arith)
            ∙ ap (rank_of s) (sym (get_or-numbers a size 0 i h))
            ∙ ranks i (omega (arith, h, length-numbers a size 0));
        heap = k.alike.heap ∙ ap (λ t. t.heap) r2.server ∙ r1.alike.heap;
      }

-- Where a device with its queues and its heap is there, some port below 128 answers, the library
-- creates a queue pair for each rank, different ones, with different numbers below a bound that the
-- fuel covers, and changes each as it is asked to, and every peer's name for this process is in the
-- space after the first loop: lc_server_init returns. The window of receives is empty; each queue
-- pair was brought to INIT at the first port that answers, to RTR with the number and the port that
-- its peer's name gives, and to RTS, in this order and nothing else; the entries of the peers have
-- the heaps and keys of the names; and the rank of each queue pair is found by its number.
pub lc_server_init-IsReady :
    (kvs : Kvs) (a : Library) (id me port size fuel bound : ℕ) (c : ℕ → ConnCtx)
    (others : kvs.Space → kvs.Space) (s : kvs.Space)
    → Opens a port
    → Grants a size
    → Apart a.create_qp size
    → 0 < size
    → bound ≤ fuel
    → All (λ q. q < bound) (numbers a size 0)
    → Distinct (numbers a size 0)
    → ((j : ℕ)
        → j < size
        → scanned
            (lc_pm_getname kvs (others (publish_names kvs a id me port size 0 s)) j (gid_of id me))
          ≡ some (c j))
    → (o : Opened) × (lc_server_init kvs a id me fuel size others s ≡ some o)
      × IsReady a port size c o
unfolding lc_server_init
lc_server_init-IsReady kvs a id me port size fuel bound c others s opens g apart pos enough below
      distinct named =
    let (o1, created, r1) =
      create_all-Created kvs a id me port size g size 0 (first_server a) s (omega arith) in
    let names = publish_names kvs a id me port size 0 s in
    let (o2, connected, r2) =
      connect_all-Connected kvs a id me port size g c size 0 o1 (others names) (omega arith)
        named in
    let nums =
      qp_nums-numbers a o2.server size 0
        (λ j le lt. ap (λ t. t.qp j) r2.server ∙ r1.inside j (omega arith) (omega (arith, lt))) in
    let (sv, ranked, _, ranks) =
      init_ranks-finds fuel bound o2.server (numbers a size 0)
        (omega (arith, pos, length-numbers a size 0)) enough below distinct in
    let keeps = init_ranks-Ranked fuel o2.server sv (numbers a size 0) ranked in
    (
      record o2 { server = sv },
      ap (at_port kvs a id me fuel size others s) (open_device-port a port opens)
          ∙ ap (after_names kvs a id me fuel port size others) created
          ∙ ap
              (λ o. elim o [
                | none ↦ none
                | some o' ↦ with_server o' (init_ranks fuel o'.server (qp_nums a o'.server size 0))
              ])
              connected
          ∙ ap (λ l. with_server o2 (init_ranks fuel o2.server l)) nums
          ∙ ap (with_server o2) ranked,
      ready a port size c apart o1 o2 sv r1 r2 keeps ranks,
    )
