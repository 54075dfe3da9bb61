-- ===== src/Ibv/Long/Ending.antt =====
-- The receiver's last two steps of a long message over the ibv server: the end of the write and the
-- completion of its answer, in either order.
use lc.Base.{
  ℕ, ◌+◌, ◌-◌, ◌^◌, ◌<◌, ◌≡◌, ap, ◌∙◌, [], ◌∷◌, ◌++◌, List, Option, some, Bool, true, false, arith,
  bit_or, append_assoc,
}
use lc.Engine.{
  Call, rma_dereg, pool_put, World, Build, emit, drop_ref, lci_ce_signal, lci_ce_dispatch,
  lci_serve_send, lci_serve_imm,
}
use lc.Engine.Rules.{dispatch_sync}
use lc.Calls.Twice.{Answered, sent, gone, last_imm, first_send, first_imm, second_imm}
use lc.Ibv.{Server, imm_rtr}
use lc.Ibv.Progress.{Wc, put_back, on_recv}
use lc.Ibv.Arrive.{on_ended, bit_or-rtr}
use lc.Ibv.Long.{ended_at}

-- Both events are over: the request is signalled, the registration of its buffer is ended, and the
-- packet of the receive and that of the notice are back in the pool.
abbrev pub put_both : Bool → ℕ → ℕ → List Call
put_both true p notice = pool_put notice ∷ pool_put p ∷ []
put_both false p notice = pool_put p ∷ pool_put notice ∷ []

pub record Ended (first : Bool) (w : World) (p notice : ℕ) (o : Option World) : Type 0 where
  pub world : World
  pub returned : o ≡ some world
  pub sync : (world.reqs (w.packets p).req).sync ≡ 1
  pub size : (world.reqs (w.packets p).req).size ≡ (w.reqs (w.packets p).req).size
  pub memory : world.memory ≡ w.memory
  pub eps : world.eps ≡ w.eps
  pub calls : world.calls ≡ w.calls ++ rma_dereg (w.packets p).rma_mem ∷ put_both first p notice

module _ (b : Build) (r : Server) (w : World) (p sid : ℕ) (wc : Wc) (a : Answered b w p)
    (offset : r.heap + sid ≡ p) (low : sid < 2 ^ 31) (noticed : wc.with_imm ≡ true)
    (word : wc.imm_data ≡ bit_or sid imm_rtr) where
  heard : (v : World) → on_recv b r v wc ≡ put_back wc.wr_id (lci_serve_imm b v p)
  heard v =
      let x : ℕ = sid + 2 ^ 31 in
      let same : x - 2 ^ 31 ≡ sid = omega arith in
      on_ended b r v wc x noticed (word ∙ bit_or-rtr sid low) (omega arith) (omega arith)
      ∙ ap (λ y. put_back wc.wr_id (lci_serve_imm b v (r.heap + y))) same
      ∙ ap (λ y. put_back wc.wr_id (lci_serve_imm b v y)) offset

  -- The completion of the answer first.
  late :
      ended_at false b r w p wc
      ≡ some (emit (lci_ce_signal (last_imm b w p a) p) (pool_put wc.wr_id))
  unfolding ended_at
  late =
      let last = last_imm b w p a in
      rw (first_send b w p a, ended_at)
        (heard (sent b w p a)
          ∙ ap (put_back wc.wr_id) (
              second_imm b w p a
              ∙ dispatch_sync b last (last.packets p).ep p (last.eps (last.packets p).ep).cap
                  (ground (arith, a.signals)) (ground (arith, a.not_glob))))

  -- The end of the write first.
  abbrev back : World
  back = emit (gone b w p a) (pool_put wc.wr_id)

  abbrev last_send : World
  last_send = (drop_ref back p).1

  second_send :
      lci_serve_send b back p
      ≡ lci_ce_dispatch b last_send
          (last_send.packets p).ep
          p
          (last_send.eps (last_send.packets p).ep).cap
  unfolding lci_serve_send
  second_send = ground (arith, a.ref, a.proto)

  early : ended_at true b r w p wc ≡ some (lci_ce_signal last_send p)
  unfolding ended_at
  early =
      rw (heard w, first_imm b w p a, ended_at)
        (second_send
          ∙ dispatch_sync b last_send (last_send.packets p).ep p
              (last_send.eps (last_send.packets p).ep).cap (ground (arith, a.signals))
              (ground (arith, a.not_glob)))

  pub both-Ended : (first : Bool) → Ended first w p wc.wr_id (ended_at first b r w p wc)
  unfolding lci_ce_signal
  both-Ended true = record {
    world = lci_ce_signal last_send p;
    returned = early;
    sync = ground arith;
    size = ground arith;
    memory = ground arith;
    eps = ground arith;
    calls = ground (
      arith,
      a.poolid,
      append_assoc w.calls (rma_dereg (w.packets p).rma_mem ∷ []) (pool_put wc.wr_id ∷ []),
      append_assoc w.calls (rma_dereg (w.packets p).rma_mem ∷ pool_put wc.wr_id ∷ [])
          (pool_put p ∷ []),
    );
  }
  both-Ended false = record {
    world = emit (lci_ce_signal (last_imm b w p a) p) (pool_put wc.wr_id);
    returned = late;
    sync = ground arith;
    size = ground arith;
    memory = ground arith;
    eps = ground arith;
    calls = ground (
      arith,
      a.poolid,
      append_assoc w.calls (rma_dereg (w.packets p).rma_mem ∷ []) (pool_put p ∷ []),
      append_assoc w.calls (rma_dereg (w.packets p).rma_mem ∷ pool_put p ∷ [])
          (pool_put wc.wr_id ∷ []),
    );
  }
