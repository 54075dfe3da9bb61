-- ===== src/Ibv/Sending.antt =====
-- What lc_send of src/tag.c leaves to the network over the ibv server.
use lc.Base.{
  ℕ, zero, suc, ◌≤◌, ◌≡◌, refl, ap, ◌∙◌, List, [], ◌∷◌, ◌++◌, some, false, arith, leb, Bool-cases,
  inl, inr, length,
}
use mathlib.Core.Path.{subst}
use lc.Engine.{buffer, sends, sendm, callback, World, overwrite, bytes_of}
use lc.Wire.{proto_data, make_proto}
use lc.Cq.{ok}
use lc.Calls.{Env, max_inline, post_msg_size, lc_send}
use lc.Calls.Rendezvous.{HasPacket}
use lc.Calls.Sizes.{lc_send-by_size}
use lc.Ibv.{Server, Registrar, lc_server_sends, lc_server_sendm}
use lc.Ibv.Progress.{Wc}
use lc.Ibv.Arrive.{idle, NoticeOf}
use lc.Ibv.Serve.{serve, serve_all, first_of, carried}

-- A copy of a copy.
pub overwrite-overwrite :
    (n : ℕ) (bs old : List ℕ)
    → n ≤ length bs
    → overwrite n (overwrite n bs []) old ≡ overwrite n bs old
overwrite-overwrite zero bs old h = refl
overwrite-overwrite (suc n) [] old h = absurd (omega arith)
overwrite-overwrite (suc n) (x ∷ bs) [] h =
    ap (λ l. x ∷ l) (overwrite-overwrite n bs [] (omega arith))
overwrite-overwrite (suc n) (x ∷ bs) (y ∷ old) h =
    ap (λ l. x ∷ l) (overwrite-overwrite n bs old (omega arith))

-- What a call of lc_send of what a packet has room for leaves to the network.
pub record Sent (m : Registrar) (s : Server) (sent : World) (word : ℕ) (bs : List ℕ) : Type 0 where
  pub carries : carried sent sent.calls ≡ bs
  pub notices :
      (wc : Wc)
      → NoticeOf (serve_all m (idle s) sent.calls).verbs wc
      → (wc.with_imm ≡ false) × (wc.imm_data ≡ word)

inline-Sent :
    (m : Registrar) (s : Server) (sent : World) (rep src size word cb ce : ℕ)
    → sent.calls ≡ sends rep src size word ∷ callback cb ce ∷ []
    → Sent m s sent word (overwrite size (sent.memory src) [])
unfolding serve_all serve lc_server_sends
inline-Sent m s sent rep src size word cb ce e = record {
  carries = ap (carried sent) e;
  notices = λ wc n. subst (λ l. NoticeOf (serve_all m (idle s) l).verbs wc) e n;
}

packet-Sent :
    (m : Registrar) (s : Server) (sent : World) (rep size p word cb ce : ℕ) (mem bs : List ℕ)
    → sent.calls ≡ sendm rep size p word ∷ callback cb ce ∷ []
    → (sent.packets p).payload ≡ buffer bs
    → bs ≡ overwrite size mem []
    → size ≤ length mem
    → Sent m s sent word (overwrite size mem [])
unfolding serve_all serve lc_server_sendm
packet-Sent m s sent rep size p word cb ce mem bs e f g h = record {
  carries =
      ap (carried sent) e
      ∙ ap (λ k. first_of size (bytes_of k)) f
      ∙ ap (λ l. overwrite size l []) g
      ∙ overwrite-overwrite size mem [] h;
  notices = λ wc n. subst (λ l. NoticeOf (serve_all m (idle s) l).verbs wc) e n;
}

pub lc_send-Sent :
    (env : Env) (m : Registrar) (s : Server) (w : World) (src size rank tag g cb ce p : ℕ)
    → w.calls ≡ []
    → size ≤ post_msg_size
    → size ≤ length (w.memory src)
    → HasPacket env p
    → (sent : World) × (lc_send env w src size rank tag g cb ce ≡ some (ok, sent))
      × Sent m s sent (make_proto (w.eps g).gid proto_data tag) (overwrite size (w.memory src) [])
lc_send-Sent env m s w src size rank tag g cb ce p none_yet fits there h =
    let word : ℕ = make_proto (w.eps g).gid proto_data tag in
    let ways = lc_send-by_size env w src size rank tag g cb ce p there h in
    elim (Bool-cases (leb size max_inline)) [
      | inl short ↦
          let (sent, went, mem, e) = ways.0 (ground (arith, short)) in
          (
            sent,
            went,
            subst (λ l. Sent m s sent word (overwrite size l [])) (λ i. mem i src)
                (inline-Sent m s sent (env.rep rank).handle src size word cb ce (
                  e
                  ∙ ap (λ l. l ++ sends (env.rep rank).handle src size word ∷ callback cb ce ∷ [])
                      none_yet)),
          )
      | inr long ↦
          let (sent, went, e, (bs, f, copy, len)) = ways.1 (ground (arith, long)) fits in
          (
            sent,
            went,
            packet-Sent m s sent (env.rep rank).handle size p word cb ce (w.memory src) bs
                (e
                  ∙ ap (λ l. l ++ sendm (env.rep rank).handle size p word ∷ callback cb ce ∷ [])
                      none_yet)
                f copy there,
          )
    ]
