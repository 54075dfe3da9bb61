-- ===== src/Engine/Completion.antt =====
-- `lci_ce_dispatch`: what a completion leaves behind, for each kind of endpoint.
use lc.Base.{
  ℕ, ◌+◌, ◌%◌, ◌≡◌, refl, sym, ap, ◌∙◌, [], ◌∷◌, ◌++◌, Option, none, some, arith, ◌&&◌, ◌==◌,
  if◌then◌else◌, Bool-cases, inl, inr, length,
}
use mathlib.Core.Path.{subst}
use lc.Cq.{CompQueue, cq_max_size, cq_push}
use lc.Cq.Refine.{IsValid, contents, Pushed, cq_push-Pushed}
use lc.Endpoint.{has, ce_sync, ce_cq, ce_am, ce_glob}
use lc.Engine.{
  Call, handler, World, Build, no_pool, pool_put, pool_put_to, sign8, set_req, set_ep,
  lci_pk_free_data, ce_finish, lci_ce_glob, lci_ce_signal, lci_ce_queue, lci_ce_am, lci_ce_dispatch,
}
use lc.Wire.{u32}

-- How an endpoint completes, with the parts that are compiled in.
pub data Way : Type 0 where
  signal queue active nothing : Way

abbrev pub way : Build → ℕ → Way
way b cap =
    if b.has_sync && has cap ce_sync
    then signal
    else if b.has_cq && has cap ce_cq
    then queue
    else if b.has_am && has cap ce_am
    then active
    else nothing

-- The return of a packet to a pool: its own, or that of the thread.
abbrev pub returned : World → ℕ → Call
returned w p =
    let pid = (w.packets p).poolid in
    if pid == no_pool then pool_put p else pool_put_to p (sign8 pid)

-- The counter of an endpoint, if it counts.
abbrev pub counted : Build → ℕ → ℕ → ℕ
counted b cap n = if b.has_glob && has cap ce_glob then (n + 1) % u32 else n

-- What a completion does to the request, the queue and the packet.
abbrev pub Completes : Way → World → ℕ → ℕ → World → Type 0
Completes signal w g p w' =
    let r = (w.packets p).req in
    ((w'.reqs r).sync ≡ 1)
    × (w'.calls ≡ w.calls ++ returned w p ∷ [])
    × ((w'.eps g).cq ≡ (w.eps g).cq)
Completes queue w g p w' =
    let r = (w.packets p).req in
    ((w'.reqs r).parent ≡ p)
    × (w'.calls ≡ w.calls)
    × (contents (w'.eps g).cq ≡ contents (w.eps g).cq ++ r ∷ [])
    × IsValid (w'.eps g).cq
Completes active w g p w' =
    (w'.reqs ≡ w.reqs)
    × (w'.calls
        ≡ (w.calls ++ handler (w.eps g).handler (w.packets p).req ∷ []) ++ returned w p ∷ [])
    × ((w'.eps g).cq ≡ (w.eps g).cq)
Completes nothing w g p w' =
    (w'.reqs ≡ w.reqs) × (w'.calls ≡ w.calls ++ returned w p ∷ []) × ((w'.eps g).cq ≡ (w.eps g).cq)

-- The completion in the way `k` ends the process only where a full queue takes no more.
abbrev pub Dispatched : Way → Build → World → ℕ → ℕ → ℕ → Option World → Type 0
Dispatched k b w g p cap none = (k ≡ queue) × (length (contents (w.eps g).cq) + 1 ≡ cq_max_size)
Dispatched k b w g p cap (some w') =
    Completes k w g p w'
    × ((w'.eps g).completed ≡ counted b cap (w.eps g).completed)
    × (w'.packets ≡ w.packets)
    × (w'.memory ≡ w.memory)

-- The branches by their way.
abbrev by_way : Way → Build → World → ℕ → ℕ → ℕ → Option World
by_way signal b w g p cap = some (ce_finish b cap g (lci_ce_signal w p))
by_way queue b w g p cap = elim (lci_ce_queue w g p) [
  | none ↦ none
  | some w' ↦ some (ce_finish b cap g w')
]
by_way active b w g p cap = some (ce_finish b cap g (lci_ce_am w g p))
by_way nothing b w g p cap = some (ce_finish b cap g (lci_pk_free_data w p))

dispatch-by_way :
    (b : Build) (w : World) (g p cap : ℕ)
    → lci_ce_dispatch b w g p cap ≡ by_way (way b cap) b w g p cap
unfolding lci_ce_dispatch
dispatch-by_way b w g p cap = elim (Bool-cases (b.has_sync && has cap ce_sync)) [
  | inl s ↦ rw s refl
  | inr s ↦ rw s (elim (Bool-cases (b.has_cq && has cap ce_cq)) [
    | inl q ↦ rw q refl
    | inr q ↦
        rw q
          (elim (Bool-cases (b.has_am && has cap ce_am)) [ inl a ↦ rw a refl | inr a ↦ rw a refl ])
  ])
]

-- The counter is all that the end of the dispatch changes.
finished :
    (k : Way) (b : Build) (w w' : World) (g p cap : ℕ)
    → Completes k w g p w'
    → (w'.eps g).completed ≡ (w.eps g).completed
    → w'.packets ≡ w.packets
    → w'.memory ≡ w.memory
    → Dispatched k b w g p cap (some (ce_finish b cap g w'))
unfolding lci_ce_glob
finished k b w w' g p cap c n e m = elim (Bool-cases (b.has_glob && has cap ce_glob)) [
  | inl y ↦ rw y (kept k c, ground (arith, n), e, m)
  | inr y ↦ rw y (c, n, e, m)
]
  where
    same : ((lci_ce_glob w' g).eps g).cq ≡ (w'.eps g).cq
    same = ground arith

    kept : (k : Way) → Completes k w g p w' → Completes k w g p (lci_ce_glob w' g)
    kept signal (a, c, d) = (a, c, same ∙ d)
    kept queue (a, c, d, e) = (a, c, ap contents same ∙ d, subst IsValid (sym same) e)
    kept active (a, c, d) = (a, c, same ∙ d)
    kept nothing (a, c, d) = (a, c, same ∙ d)

-- The call of `lci_pk_free_data`, wherever the packet is as in `w`.
freed :
    (w v : World) (p : ℕ)
    → v.packets ≡ w.packets
    → (lci_pk_free_data v p).calls ≡ v.calls ++ returned w p ∷ []
freed w v p e = ground (arith, ap (λ f. (f p).poolid) e)

signal-Completes : (w : World) (g p : ℕ) → Completes signal w g p (lci_ce_signal w p)
unfolding lci_ce_signal
signal-Completes w g p = (ground arith, ground arith, ground arith)

active-Completes : (w : World) (g p : ℕ) → Completes active w g p (lci_ce_am w g p)
unfolding lci_ce_am
active-Completes w g p = (ground arith, ground arith, ground arith)

nothing-Completes : (w : World) (g p : ℕ) → Completes nothing w g p (lci_pk_free_data w p)
nothing-Completes w g p = (ground arith, ground arith, ground arith)

abbrev queued : World → ℕ → ℕ → CompQueue → World
queued w g p q =
    let r = (w.packets p).req in
    set_ep (set_req w r (record (w.reqs r) { parent = p })) g (record (w.eps g) { cq = q })

queued-cq : (w : World) (g p : ℕ) (q : CompQueue) → ((queued w g p q).eps g).cq ≡ q
queued-cq w g p q = ground arith

module _ (b : Build) (w : World) (g p cap : ℕ) where
  queue-none : cq_push (w.eps g).cq (w.packets p).req ≡ none → by_way queue b w g p cap ≡ none
  unfolding lci_ce_queue
  queue-none e = rw (e, by_way) refl

  queue-some :
      (q : CompQueue)
      → cq_push (w.eps g).cq (w.packets p).req ≡ some q
      → by_way queue b w g p cap ≡ some (ce_finish b cap g (queued w g p q))
  unfolding lci_ce_queue
  queue-some q e = rw (e, by_way) refl

by_way-Dispatched :
    (k : Way) (b : Build) (w : World) (g p cap : ℕ)
    → IsValid (w.eps g).cq
    → Dispatched k b w g p cap (by_way k b w g p cap)
by_way-Dispatched signal b w g p cap v =
    finished signal b w (lci_ce_signal w p) g p cap (signal-Completes w g p)
      (unfold lci_ce_signal in ground arith) (unfold lci_ce_signal in ground arith)
      (unfold lci_ce_signal in ground arith)
by_way-Dispatched active b w g p cap v =
    finished active b w (lci_ce_am w g p) g p cap (active-Completes w g p)
      (unfold lci_ce_am in ground arith) (unfold lci_ce_am in ground arith)
      (unfold lci_ce_am in ground arith)
by_way-Dispatched nothing b w g p cap v =
    finished nothing b w (lci_pk_free_data w p) g p cap (nothing-Completes w g p) (ground arith)
      (ground arith) (ground arith)
by_way-Dispatched queue b w g p cap v = pushed (cq_push (w.eps g).cq r) refl (cq_push-Pushed r v)
  where
    r : ℕ
    r = (w.packets p).req

    pushed :
        (o : Option CompQueue)
        → cq_push (w.eps g).cq r ≡ o
        → Pushed (contents (w.eps g).cq) r o
        → Dispatched queue b w g p cap (by_way queue b w g p cap)
    pushed none e h =
        subst (Dispatched queue b w g p cap) (sym (queue-none b w g p cap e)) (refl, h)
    pushed (some q) e (v', c, _) =
        subst (Dispatched queue b w g p cap) (sym (queue-some b w g p cap q e)) (
          finished queue b w (queued w g p q) g p cap
            (
              ground arith,
              refl,
              ap contents (queued-cq w g p q) ∙ c,
              subst IsValid (sym (queued-cq w g p q)) v',
            )
            (ground arith) refl refl)

-- A completion marks the request, queues it, or hands it to the handler, as the endpoint says; the
-- packet goes back to the pool that it names, or stays with the queued request; the counter of an
-- endpoint that counts goes up by one. Only a full completion queue ends the process.
pub lci_ce_dispatch-Dispatched :
    (b : Build) (w : World) (g p cap : ℕ)
    → IsValid (w.eps g).cq
    → Dispatched (way b cap) b w g p cap (lci_ce_dispatch b w g p cap)
lci_ce_dispatch-Dispatched b w g p cap v =
    subst (Dispatched (way b cap) b w g p cap) (sym (dispatch-by_way b w g p cap))
      (by_way-Dispatched (way b cap) b w g p cap v)
