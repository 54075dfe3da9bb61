-- ===== src/Calls/Twice.antt =====
-- The receiver of a long message counts two events, the send of its answer and the end of the
-- write, and completes the receive at the second.
use lc.Base.{ℕ, ◌≡◌, refl, ◌∙◌, [], ◌∷◌, ◌++◌, Option, some, arith, true, false, ◌&&◌, append_assoc}
use lc.Endpoint.{has, ce_sync, ce_glob}
use lc.Engine.{
  rma_dereg, pool_put, World, Build, no_pool, emit, drop_ref, lci_ce_signal, lci_ce_dispatch,
  lci_serve_send, lci_serve_imm,
}
use lc.Engine.Rules.{dispatch_sync}
use lc.Wire.{proto_rtr}

-- A packet that waits for both events, for a request that a client waits on.
pub record Answered (b : Build) (w : World) (p : ℕ) : Type 0 where
  pub proto : (w.packets p).proto ≡ proto_rtr
  pub ref : (w.packets p).ref ≡ 2
  pub poolid : (w.packets p).poolid ≡ no_pool
  pub signals : b.has_sync && has (w.eps (w.packets p).ep).cap ce_sync ≡ true
  pub not_glob : b.has_glob && has (w.eps (w.packets p).ep).cap ce_glob ≡ false

-- The first event changes no request; after the second the request is signalled, the buffer is
-- no longer registered and the packet is back in the pool.
pub record Once (w : World) (p : ℕ) (first : Option World) (second : World → Option World)
    : Type 0 where
  pub middle : World
  pub after : World
  pub first_returned : first ≡ some middle
  pub nothing_yet : middle.reqs ≡ w.reqs
  pub second_returned : second middle ≡ some after
  pub sync : (after.reqs (w.packets p).req).sync ≡ 1
  pub calls : after.calls ≡ w.calls ++ rma_dereg (w.packets p).rma_mem ∷ pool_put p ∷ []

module _ (b : Build) (w : World) (p : ℕ) (a : Answered b w p) where
  abbrev pub sent : World
  sent = (drop_ref w p).1

  pub first_send : lci_serve_send b w p ≡ some sent
  unfolding lci_serve_send
  first_send = ground (arith, a.proto, a.ref)

  abbrev pub gone : World
  gone = (drop_ref (emit w (rma_dereg (w.packets p).rma_mem)) p).1

  pub first_imm : lci_serve_imm b w p ≡ some gone
  unfolding lci_serve_imm
  first_imm = ground (arith, a.ref)

  abbrev pub last_imm : World
  last_imm = (drop_ref (emit sent (rma_dereg (sent.packets p).rma_mem)) p).1

  pub second_imm :
      lci_serve_imm b sent p
      ≡ lci_ce_dispatch b last_imm
          (last_imm.packets p).ep
          p
          (last_imm.eps (last_imm.packets p).ep).cap
  unfolding lci_serve_imm
  second_imm = ground (arith, a.ref)

  abbrev last_send : World
  last_send = (drop_ref gone p).1

  second_send :
      lci_serve_send b gone p
      ≡ lci_ce_dispatch b last_send
          (last_send.packets p).ep
          p
          (last_send.eps (last_send.packets p).ep).cap
  unfolding lci_serve_send
  second_send = ground (arith, a.ref, a.proto)

  -- The receiver's packet of a long message, on an endpoint with synchronous completion, waits for
  -- two events; the send of the answer is first here and the end of the write second. The first
  -- changes no request. The second signals the request, ends the registration of the buffer and
  -- returns the packet to the pool.
  pub send_then_imm : Once w p (lci_serve_send b w p) (λ v. lci_serve_imm b v p)
  unfolding lci_ce_signal
  send_then_imm = record {
    middle = sent;
    after = lci_ce_signal last_imm p;
    first_returned = first_send;
    nothing_yet = refl;
    second_returned =
        second_imm
        ∙ dispatch_sync b last_imm (last_imm.packets p).ep p
            (last_imm.eps (last_imm.packets p).ep).cap (ground (arith, a.signals))
            (ground (arith, a.not_glob));
    sync = ground arith;
    calls = ground (
      arith,
      a.poolid,
      append_assoc w.calls (rma_dereg (w.packets p).rma_mem ∷ []) (pool_put p ∷ []),
    );
  }

  -- The same with the end of the write first and the send of the answer second.
  pub imm_then_send : Once w p (lci_serve_imm b w p) (λ v. lci_serve_send b v p)
  unfolding lci_ce_signal
  imm_then_send = record {
    middle = gone;
    after = lci_ce_signal last_send p;
    first_returned = first_imm;
    nothing_yet = refl;
    second_returned =
        second_send
        ∙ dispatch_sync b last_send (last_send.packets p).ep p
            (last_send.eps (last_send.packets p).ep).cap (ground (arith, a.signals))
            (ground (arith, a.not_glob));
    sync = ground arith;
    calls = ground (
      arith,
      a.poolid,
      append_assoc w.calls (rma_dereg (w.packets p).rma_mem ∷ []) (pool_put p ∷ []),
    );
  }
