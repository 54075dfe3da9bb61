-- ===== src/Ibv/Long/Whole.antt =====
-- A long message from lc_sendl at one process to lc_recvl at another, over the ibv server, from the
-- request to send to the last of the completions.
use lc.Base.{ℕ, ◌^◌, ◌<◌, ◌≡◌, ap, ◌∙◌, [], ◌∷◌, ◌++◌, Bool, true, arith, if◌then◌else◌, ◌&&◌}
use mathlib.Core.Path.{subst, transport}
use lc.Endpoint.{has, ar_exp}
use lc.Engine.{sendm, rts_size, World, Build}
use lc.Wire.{proto_rts, make_proto}
use lc.Calls.{Env, lc_sendl}
use lc.Calls.Rendezvous.{HasPacket, Carried, Carried-Announces, lc_sendl-asks, or_else}
use lc.Ibv.{Server, Registrar}
use lc.Ibv.Progress.{Wc, rank_of, told, on_recv}
use lc.Ibv.Long.{Expecting, Requested, Replied, Wrote, asked_at, ended_at}
use lc.Ibv.Long.Asking.{asked-Agreed}
use lc.Ibv.Long.Writing.{request-Notice}
use lc.Ibv.Long.Exchange.{Exchanged, after_reply-Exchanged}

-- A long message of fewer than 2^32 bytes over the ibv server, under a tag below 2^16, from a
-- sender with a packet at hand to a receiver on the same endpoint number below 2^14, on an endpoint
-- with explicit addressing and synchronous completion that does not count completions, and that
-- gives its answers a number below 2^14 under which the sender has an endpoint with explicit
-- addressing, where nothing else waits under the key, which the table can hold, the request is not
-- the packet's own, the server's heap is the receiver's and the packet that takes the request to
-- send lies in it, less than 2^31 above its start and below 2^64. Both processes have nothing else
-- to serve, and the network brings the request to send from a queue pair of the sender's rank, the
-- answer, and the write of the sender with its notice. Whether lc_recvl or the request to send
-- comes first, and whether the end of the write or the completion of the answer does: all steps
-- return; the sender's bytes are at the receive's buffer; the request is signalled and has the
-- sender's size if the request to send came first and else the size it was posted with; the
-- registration is ended, the receiver's two packets are freed, and the table has the queues it had;
-- at the sender the callback is called and its packet is freed.
pub long-Exchanged :
    (b : Build) (env env' : Env) (m : Registrar) (s r : Server) (ws ws' w w' : World)
    (wc1 wc2 wc3 : Wc) (first last : Bool) (src size rank tag gs cb ce sp g req dst room from : ℕ)
    → ws.calls ≡ []
    → w.calls ≡ []
    → ws'.calls ≡ []
    → HasPacket env sp
    → (ws.eps gs).gid ≡ g
    → size < 2 ^ 32
    → Expecting b r w g wc1.wr_id req from tag
    → rank_of r wc1.qp_num ≡ from
    → (w.eps g).gid < 2 ^ 14
    → b.has_exp && has (ws'.eps (w.eps g).gid).cap ar_exp ≡ true
    → Requested m s (lc_sendl env ws src size rank tag gs cb ce).1 sp w wc1
    → let answered = or_else (asked_at first b env' r w wc1 g req dst room from tag) w in
      Replied m r answered wc1.wr_id ws' wc2
      → let sent = or_else (on_recv b s ws' wc2) ws' in
        Wrote m s sent ws' answered w' wc3
        → Exchanged b
            (w.memory dst)
            (w.eps g).tbl
            (w.mem_at dst size)
            w'
            sent
            last
            g
            wc1.wr_id
            wc3.wr_id
            req
            dst
            size
            (if first then size else room)
            cb
            ce
            wc2.wr_id
            (ws'.memory src)
            (ended_at last b r w' wc1.wr_id wc3)
long-Exchanged b env env' m s r ws ws' w w' wc1 wc2 wc3 first last src size rank tag gs cb ce sp g
      req dst room from none_s none_r none_a h same small x is_from small_back back requested
      replied wrote =
    let (_, asked, (a, ea, announces)) = lc_sendl-asks env ws src size rank tag gs cb ce sp h in
    let (c, ec, (c0, c1, c2, c3)) =
      Carried-Announces a (w.packets wc1.wr_id).payload cb ce src size announces
        (subst (λ k. Carried k (w.packets wc1.wr_id).payload) ea requested.carried) in
    let word_of : ℕ → ℕ = λ x. make_proto x proto_rts tag in
    let (plain, imm) =
      request-Notice m s _ (env.rep rank).handle rts_size sp (word_of (ws.eps gs).gid) wc1
        (asked
          ∙ ap (λ l. l ++ sendm (env.rep rank).handle rts_size sp (word_of (ws.eps gs).gid) ∷ [])
              none_s)
        requested.notice in
    let agreed =
      asked-Agreed b env' r w wc1 g req dst room from tag c x is_from plain (imm ∙ ap word_of same)
        ec first in
    let is_answered : or_else (asked_at first b env' r w wc1 g req dst room from tag) w
        ≡ agreed.world =
      ap (λ o. or_else o w) agreed.returned in
    let exchanged =
      after_reply-Exchanged b m s r (told r w wc1) ws' w' g wc1.wr_id req dst (env'.rep from).handle
        (if first then c.size else room) c _ wc2 wc3 last agreed x.signals x.not_glob x.heap x.above
        x.below x.address none_r none_a small_back back (omega (arith, c3, small))
        (subst (λ v. Replied m r v wc1.wr_id ws' wc2) is_answered replied)
        (subst (λ v. Wrote m s (or_else (on_recv b s ws' wc2) ws') ws' v w' wc3) is_answered
          wrote) in
    transport
      (λ i.
        Exchanged b (w.memory dst) (w.eps g).tbl (w.mem_at dst (c3 i)) w'
          (or_else (on_recv b s ws' wc2) ws') last g wc1.wr_id wc3.wr_id req dst (c3 i)
          (if first then c3 i else room) (c0 i) (c1 i) wc2.wr_id (ws'.memory (c2 i))
          (ended_at last b r w' wc1.wr_id wc3))
      exchanged
