-- ===== src/Ibv/Long/Asking.antt =====
-- The receiver's first two steps of a long message over the ibv server: its long receive and the
-- notice of the request to send, in either order.
use lc.Base.{ℕ, ◌≡◌, refl, sym, ap, ◌∙◌, Bool, true, false, arith, if◌then◌else◌}
use mathlib.Core.Path.{fun_ext, subst}
use lc.Engine.{Rtr, rts, World, Build, lci_serve_recv}
use lc.Wire.{proto_rts, make_proto}
use lc.Calls.{Env}
use lc.Calls.Request.{
  Asked, Agreed, posted_long, lc_recvl-waits, recv_then_request, request_then_recv,
}
use lc.Calls.Request.Posted.{posted_first}
use lc.Calls.Request.Early.{came_first}
use lc.Ibv.{Server}
use lc.Ibv.Progress.{Wc, rank_of, told, on_recv}
use lc.Ibv.Arrive.{on_message}
use lc.Ibv.Long.{Expecting, asked_at}

module _ (b : Build) (env : Env) (r : Server) (w : World) (wc : Wc) (g req dst room rank tag : ℕ)
    (c : Rtr) (x : Expecting b r w g wc.wr_id req rank tag) (from : rank_of r wc.qp_num ≡ rank)
    (plain : wc.with_imm ≡ false) (word : wc.imm_data ≡ make_proto g proto_rts tag)
    (filled : (w.packets wc.wr_id).payload ≡ rts c) where
  asks : Asked b (told r w wc) g wc.wr_id req rank tag c
  asks = record {
    small_gid = x.small_gid;
    small_tag = x.small_tag;
    explicit = x.explicit;
    own = ground arith;
    from = ground (arith, from);
    filled = ground (arith, filled);
    apart = x.apart;
    key = x.key;
    no_client = x.no_client;
    no_server = x.no_server;
  }

  heard :
      (v : World)
      → on_recv b r v wc ≡ lci_serve_recv b (told r v wc) wc.wr_id (make_proto g proto_rts tag)
  heard v = on_message b r v wc (make_proto g proto_rts tag) plain word

  told-posted :
      told r (posted_long env w g req dst room rank tag) wc
      ≡ posted_long env (told r w wc) g req dst room rank tag
  told-posted =
      ap (λ f. record (posted_long env (told r w wc) g req dst room rank tag) { reqs = f })
        (fun_ext (λ i. ground (arith, x.apart)))

  late :
      asked_at false b env r w wc g req dst room rank tag
      ≡ recv_then_request b env (told r w wc) g wc.wr_id req dst room rank tag
  unfolding asked_at recv_then_request
  late =
      let posted = posted_long env w g req dst room rank tag in
      let here : asked_at false b env r w wc g req dst room rank tag ≡ on_recv b r posted wc =
        rw (lc_recvl-waits b env w g req dst room rank tag x.key x.no_client x.no_server, asked_at)
          refl in
      let there : recv_then_request b env (told r w wc) g wc.wr_id req dst room rank tag
          ≡ lci_serve_recv b (posted_long env (told r w wc) g req dst room rank tag) wc.wr_id
              (make_proto g proto_rts tag) =
        rw
          (
            lc_recvl-waits b env (told r w wc) g req dst room rank tag x.key x.no_client
                x.no_server,
            recv_then_request,
          )
          refl in
      here
      ∙ heard posted
      ∙ ap (λ v. lci_serve_recv b v wc.wr_id (make_proto g proto_rts tag)) told-posted
      ∙ sym there

  early :
      asked_at true b env r w wc g req dst room rank tag
      ≡ request_then_recv b env (told r w wc) g wc.wr_id req dst room rank tag
  unfolding asked_at request_then_recv
  early = rw (heard w, asked_at) refl

  -- What the receive gets to know of its size: the sender's, if the request to send came first.
  abbrev pub known : Bool → ℕ
  known first = if first then c.size else room

  pub asked-Agreed :
      (first : Bool)
      → Agreed
          (told r w wc)
          g
          wc.wr_id
          req
          dst
          (env.rep rank).handle
          (known first)
          c
          (asked_at first b env r w wc g req dst room rank tag)
  asked-Agreed true =
      subst (Agreed (told r w wc) g wc.wr_id req dst (env.rep rank).handle c.size c) (sym early)
        (came_first b env (told r w wc) g wc.wr_id req dst room rank tag c asks)
  asked-Agreed false =
      subst (Agreed (told r w wc) g wc.wr_id req dst (env.rep rank).handle room c) (sym late)
        (posted_first b env (told r w wc) g wc.wr_id req dst room rank tag c asks)
