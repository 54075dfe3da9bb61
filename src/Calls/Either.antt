-- ===== src/Calls/Either.antt =====
-- lc_recv of src/tag.c against lc_recvm of src/medium.c and lc_recvl of src/long.c.
use lc.Base.{
  ℕ, ◌≡◌, ◌≢◌, ◌⊎◌, inl, inr, ap, ◌∙◌, Option, none, some, arith, ◌==◌, ==_refl, true, false,
  Bool-cases,
}
use mathlib.Core.Path.{fun_ext}
use lc.Engine.{World, Build, set_req, lci_init_req}
use lc.HashTable.{Table, client, make_key, lc_hash_insert}
use lc.Wire.{proto_rts}
use lc.Calls.{Env, with_handle, recv_insert, take_data, lc_recv, lc_recvm, lc_recvl}

module _ (b : Build) (env : Env) (w : World) (src size rank tag g req : ℕ) where
  -- What the table answers: whether it kept the receive, and the packet that waited if it did not.
  abbrev pub answer : ℕ × ℕ × Table
  answer = lc_hash_insert (w.eps g).tbl (make_key rank tag) req client

  -- The handle may be written before the request is initialised.
  handle_first :
      with_handle env rank req (set_req w req (lci_init_req src size (w.reqs req)))
      ≡ set_req
          (with_handle env rank req w)
          req
          (lci_init_req src size ((with_handle env rank req w).reqs req))
  handle_first =
      ap (λ f. record w { reqs = f })
        (fun_ext (λ i. elim (Bool-cases (req == i)) [
          | inl e ↦ ground (arith, e, ==_refl req)
          | inr e ↦ ground (arith, e)
        ]))

  recv_kept :
      answer.0 == 0 ≡ false
      → lc_recv b env w src size rank tag g req ≡ lc_recvl b env w src size rank tag g req
  unfolding lc_recv lc_recvl
  recv_kept e = ground (arith, e)

  recv_long :
      answer.0 == 0 ≡ true
      → (w.packets answer.1).proto == proto_rts ≡ true
      → lc_recv b env w src size rank tag g req ≡ lc_recvl b env w src size rank tag g req
  unfolding lc_recv lc_recvl
  recv_long e f = ground (arith, e, f)

  -- `lc_recvm` once its request is initialised.
  abbrev rest : World → Option World
  rest v =
      let (m, v') = recv_insert v g rank tag req in
      elim m [ none ↦ some v' | some p ↦ take_data b v' g src req p ]

  recv_rest :
      answer.0 == 0 ≡ true
      → (w.packets answer.1).proto == proto_rts ≡ false
      → lc_recv b env w src size rank tag g req
        ≡ rest (with_handle env rank req (set_req w req (lci_init_req src size (w.reqs req))))
  unfolding lc_recv
  recv_rest e f = ground (arith, e, f)

  recv_short :
      answer.0 == 0 ≡ true
      → (w.packets answer.1).proto == proto_rts ≡ false
      → lc_recv b env w src size rank tag g req
        ≡ lc_recvm b (with_handle env rank req w) src size rank tag g req
  unfolding lc_recvm
  recv_short e f = recv_rest e f ∙ ap rest handle_first

  -- lc_recv does what lc_recvl does when the table keeps the receive or a request to send waits,
  -- and else what lc_recvm does with a request that has the handle of the sender's rank.
  pub lc_recv-either :
      (lc_recv b env w src size rank tag g req ≡ lc_recvl b env w src size rank tag g req)
        × ((answer.0 ≢ 0) ⊎ ((w.packets answer.1).proto ≡ proto_rts))
      ⊎ (lc_recv b env w src size rank tag g req
          ≡ lc_recvm b (with_handle env rank req w) src size rank tag g req)
        × (answer.0 ≡ 0)
        × ((w.packets answer.1).proto ≢ proto_rts)
  lc_recv-either = elim (Bool-cases (answer.0 == 0)) [
    | inr kept ↦ inl (recv_kept kept, inl (ground (arith, kept)))
    | inl found ↦ elim (Bool-cases ((w.packets answer.1).proto == proto_rts)) [
      | inl long ↦ inl (recv_long found long, inr (ground (arith, long)))
      | inr short ↦ inr (recv_short found short, ground (arith, found), ground (arith, short))
    ]
  ]
