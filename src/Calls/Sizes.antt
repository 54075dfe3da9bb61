-- ===== src/Calls/Sizes.antt =====
-- Which protocol a message takes by its size, and what a call does that finds no packet.
use lc.Base.{
  ℕ, zero, suc, ◌≤◌, ◌<◌, ◌≡◌, ◌⊎◌, refl, ap, List, [], ◌∷◌, ◌++◌, arith, true, length,
  append_assoc, ltb, if◌then◌else◌, none, some,
}
use lc.Cq.{ok, err_retry}
use lc.Engine.{
  buffer, sends, sendm, callback, World, overwrite, emit, set_packet, no_pool, lci_pk_init,
}
use lc.Wire.{proto_data, make_proto}
use lc.Calls.{
  Env, max_inline, packet_size, post_msg_size, call_back, lc_sends, lc_sendm, lc_sendl, lc_putm,
  lc_putms, lc_putl, lc_putls, lc_send,
}
use lc.Calls.Rendezvous.{HasPacket}

-- `memcpy` of `n` bytes to a place where nothing is of interest.
length-overwrite : (n : ℕ) (bs : List ℕ) → n ≤ length bs → length (overwrite n bs []) ≡ n
length-overwrite zero bs h = refl
length-overwrite (suc n) [] h = absurd (omega arith)
length-overwrite (suc n) (x ∷ bs) h = ap suc (length-overwrite n bs (omega arith))

-- The world after the copy.
abbrev filled : Env → World → ℕ → ℕ → ℕ → ℕ → World
filled env w src size g p =
    let pid = if ltb 1024 size then env.local else no_pool in
    set_packet w p (record (lci_pk_init g pid proto_data (w.packets p)) {
      payload = buffer (overwrite size (w.memory src) []);
    })

-- Where no packet is at hand, or the deadlock flag is up, each call that needs one returns
-- LC_ERR_RETRY and has done nothing.
pub no_packet-retries :
    (env : Env) (w : World) (src size rank addr meta g cb ce : ℕ)
    → (env.deadlock ≡ true) ⊎ (env.got ≡ 0)
    → (lc_sendm env w src size rank meta g ≡ some (err_retry, w))
      × (lc_sendl env w src size rank meta g cb ce ≡ (err_retry, w))
      × (lc_putm env w src size rank addr g ≡ some (err_retry, w))
      × (lc_putms env w src size rank addr meta g ≡ some (err_retry, w))
      × (lc_putl env w src size rank addr g cb ce ≡ (err_retry, w))
      × (lc_putls env w src size rank addr meta g cb ce ≡ (err_retry, w))
      × (max_inline < size → lc_send env w src size rank meta g cb ce ≡ some (err_retry, w))
unfolding lc_sendm lc_sendl lc_putm lc_putms lc_putl lc_putls lc_send
no_packet-retries env w src size rank addr meta g cb ce h = (
  ground (arith, h),
  ground (arith, h),
  ground (arith, h),
  ground (arith, h),
  ground (arith, h),
  ground (arith, h),
  λ long. ground (arith, h),
)

pub lc_send-by_size :
    (env : Env) (w : World) (src size rank tag g cb ce p : ℕ)
    → size ≤ length (w.memory src)
    → HasPacket env p
    → let o = lc_send env w src size rank tag g cb ce in
      let word = make_proto (w.eps g).gid proto_data tag in
      (size ≤ max_inline
        → (w' : World) × (o ≡ some (ok, w'))
          × (w'.memory ≡ w.memory)
          × (w'.calls ≡ w.calls ++ sends (env.rep rank).handle src size word ∷ callback cb ce ∷ []))
      × (max_inline < size
          → size ≤ post_msg_size
          → (w' : World) × (o ≡ some (ok, w'))
            × (w'.calls ≡ w.calls ++ sendm (env.rep rank).handle size p word ∷ callback cb ce ∷ [])
            × ((bs : List ℕ) × ((w'.packets p).payload ≡ buffer bs)
                × (bs ≡ overwrite size (w.memory src) [])
                × (length bs ≡ size)))
      × (post_msg_size < size → size ≤ packet_size → o ≡ none)
      × (packet_size < size
          → (w' : World) × (o ≡ some (ok, w'))
            × (lc_sendl env w src size rank tag g cb ce ≡ (ok, w')))
unfolding lc_send lc_sends lc_sendm lc_sendl
lc_send-by_size env w src size rank tag g cb ce p m h =
    let word = make_proto (w.eps g).gid proto_data tag in
    let one = sends (env.rep rank).handle src size word in
    let two = sendm (env.rep rank).handle size p word in
    (
      λ small. (
        (call_back cb ce (lc_sends env w src size rank tag g)).1,
        ground arith,
        refl,
        append_assoc w.calls (one ∷ []) (callback cb ce ∷ []),
      ),
      λ medium fits. (
        emit (emit (filled env w src size g p) two) (callback cb ce),
        ground (arith, h.free, h.got, h.there),
        append_assoc w.calls (two ∷ []) (callback cb ce ∷ []),
        (
          overwrite size (w.memory src) [],
          ground arith,
          refl,
          length-overwrite size (w.memory src) m,
        ),
      ),
      λ over still. ground (arith, h.free, h.got, h.there),
      λ large. (
        (lc_sendl env w src size rank tag g cb ce).1,
        ground (arith, h.free, h.got, h.there),
        ground (arith, h.free, h.got, h.there),
      ),
    )
