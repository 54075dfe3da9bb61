-- ===== src/Calls/Dynamic.antt =====
-- A short message to an endpoint with dynamic addressing and a completion queue:
-- lci_serve_recv_dyn of src/include/proto.h, and lc_cq_reqfree of src/cq.c afterwards.
use lc.Base.{
  ℕ, ◌+◌, ◌^◌, ◌<◌, ◌≡◌, ◌≢◌, refl, sym, ap, ◌∙◌, List, [], ◌∷◌, ◌++◌, Option, none, some, true,
  false, arith, ◌&&◌, length,
}
use mathlib.Core.Path.{subst}
use lc.Cq.{CompQueue, cq_max_size, cq_push}
use lc.Cq.Refine.{IsValid, contents, Pushed, cq_push-Pushed}
use lc.Endpoint.{has, ar_exp, ar_dyn, ce_sync, ce_cq}
use lc.Engine.{
  pool_put, buffer, World, Build, set_req, set_ep, set_meta, memcpy, overwrite, ce_finish,
  lci_ce_glob, lci_ce_queue, lci_ce_dispatch, lci_serve_recv_dyn, lci_serve_recv_dispatch,
  lci_serve_recv, lc_cq_reqfree,
}
use lc.Wire.{proto_data, make_proto}
use lc.Calls.Order.{data_word_fields}

-- An endpoint with dynamic addressing whose completion queue has room, and a packet of the bytes
-- `bs` with the request `r`.
pub record Listening (b : Build) (w : World) (g p r tag : ℕ) (bs : List ℕ) : Type 0 where
  pub small_gid : g < 2 ^ 14
  pub small_tag : tag < 2 ^ 16
  pub not_explicit : b.has_exp && has (w.eps g).cap ar_exp ≡ false
  pub dynamic : b.has_dyn && has (w.eps g).cap ar_dyn ≡ true
  pub not_signals : b.has_sync && has (w.eps g).cap ce_sync ≡ false
  pub queues : b.has_cq && has (w.eps g).cap ce_cq ≡ true
  pub valid : IsValid (w.eps g).cq
  pub room : length (contents (w.eps g).cq) + 1 ≢ cq_max_size
  pub own : (w.packets p).req ≡ r
  pub filled : (w.packets p).payload ≡ buffer bs

-- The packet's request is the last of the queue, with the buffer that was allocated for the size
-- that came, and the bytes are there; the packet is kept until the request is freed.
pub record Queued (w : World) (g p r tag : ℕ) (bs : List ℕ) (o : Option World) : Type 0 where
  pub world : World
  pub returned : o ≡ some world
  pub fifo : contents (world.eps g).cq ≡ contents (w.eps g).cq ++ r ∷ []
  pub valid : IsValid (world.eps g).cq
  pub place : ((world.reqs r).buffer, (world.reqs r).ctx) ≡ (w.eps g).alloc (w.reqs r).size
  pub bytes :
      world.memory (world.reqs r).buffer
      ≡ overwrite (w.reqs r).size bs (w.memory (world.reqs r).buffer)
  pub told :
      ((world.reqs r).meta ≡ tag)
      × ((world.reqs r).size ≡ (w.reqs r).size)
      × ((world.reqs r).rank ≡ (w.reqs r).rank)
  pub kept : world.calls ≡ w.calls
  pub freed : (lc_cq_reqfree world r).calls ≡ w.calls ++ pool_put p ∷ []

-- The state before the completion, and the one after the push.
abbrev placed : World → ℕ → ℕ → ℕ → List ℕ → World
placed w g p word bs =
    let r = (w.packets p).req in
    let w1 = set_meta w p word in
    let q = w1.reqs r in
    let (buf, ctx) = (w.eps g).alloc q.size in
    set_req (memcpy w1 buf bs q.size) r (record q { ctx = ctx; buffer = buf })

abbrev pushed : World → ℕ → ℕ → CompQueue → World
pushed w g p q =
    let r = (w.packets p).req in
    set_ep (set_req w r (record (w.reqs r) { parent = p })) g (record (w.eps g) { cq = q })

dispatch_queue :
    (b : Build) (w : World) (g p cap : ℕ) (q : CompQueue)
    → b.has_sync && has cap ce_sync ≡ false
    → b.has_cq && has cap ce_cq ≡ true
    → cq_push (w.eps g).cq (w.packets p).req ≡ some q
    → lci_ce_dispatch b w g p cap ≡ some (ce_finish b cap g (pushed w g p q))
unfolding lci_ce_dispatch lci_ce_queue
dispatch_queue b w g p cap q s c e = rw (s, c, e) refl

serve_recv_dynamic :
    (b : Build) (w : World) (g p r tag : ℕ) (bs : List ℕ)
    → Listening b w g p r tag bs
    → lci_serve_recv b w p (make_proto g proto_data tag)
      ≡ lci_ce_dispatch b (placed w g p (make_proto g proto_data tag) bs) g p (w.eps g).cap
unfolding lci_serve_recv lci_serve_recv_dispatch lci_serve_recv_dyn
serve_recv_dynamic b w g p r tag bs l =
    let (d, e, _) = data_word_fields g tag l.small_gid l.small_tag in
    rw (e, l.not_explicit, l.dynamic) (ground (arith, d, l.filled))

module _ (b : Build) (w : World) (g p r tag : ℕ) (bs : List ℕ) (l : Listening b w g p r tag bs)
    (q : CompQueue) (valid : IsValid q) (fifo : contents q ≡ contents (w.eps g).cq ++ r ∷ []) where
  abbrev cap : ℕ
  cap = (w.eps g).cap

  abbrev before : World
  before = placed w g p (make_proto g proto_data tag) bs

  abbrev end : World
  end = ce_finish b cap g (pushed before g p q)

  end-cq : (end.eps g).cq ≡ q
  unfolding lci_ce_glob
  end-cq = ground arith

  end-reqs : end.reqs ≡ (pushed before g p q).reqs
  unfolding lci_ce_glob
  end-reqs = ground arith

  end-Queued : Queued w g p r tag bs (some end)
  unfolding lci_ce_glob lc_cq_reqfree
  end-Queued =
      let (d, e, t) = data_word_fields g tag l.small_gid l.small_tag in
      record {
        world = end;
        returned = refl;
        fifo = ap contents end-cq ∙ fifo;
        valid = subst IsValid (sym end-cq) valid;
        place = ground (arith, l.own);
        bytes = ground (arith, l.own);
        told = (ground (arith, l.own, t), ground (arith, l.own), ground (arith, l.own));
        kept = ground arith;
        freed = ground (arith, l.own);
      }

-- A short message under a tag below 2^16 that comes to an endpoint with a number below 2^14 and
-- dynamic, not explicit, addressing, which does not signal its requests and whose completion queue
-- is valid and has room: the handler returns, the packet's request is the last of the queue, in a
-- buffer of the endpoint's allocator for the size that came, with the bytes, the tag, the size and
-- the rank of the sender; no packet goes back to a pool before lc_cq_reqfree of the request, and
-- then just this one does.
pub message-Queued :
    (b : Build) (w : World) (g p r tag : ℕ) (bs : List ℕ)
    → Listening b w g p r tag bs
    → Queued w g p r tag bs (lci_serve_recv b w p (make_proto g proto_data tag))
message-Queued b w g p r tag bs l = by_push (cq_push (w.eps g).cq r) refl (cq_push-Pushed r l.valid)
  where
    by_push :
        (o : Option CompQueue)
        → cq_push (w.eps g).cq r ≡ o
        → Pushed (contents (w.eps g).cq) r o
        → Queued w g p r tag bs (lci_serve_recv b w p (make_proto g proto_data tag))
    by_push none e h = absurd (l.room h)
    by_push (some q) e (v, c, _) =
        subst (Queued w g p r tag bs)
          (sym (
            serve_recv_dynamic b w g p r tag bs l
            ∙ dispatch_queue b (placed w g p (make_proto g proto_data tag) bs) g p (w.eps g).cap q
                l.not_signals l.queues (ap (cq_push (w.eps g).cq) l.own ∙ e)))
          (end-Queued b w g p r tag bs l q v c)
