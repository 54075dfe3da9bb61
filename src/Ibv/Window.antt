-- ===== src/Ibv/Window.antt =====
-- The window of posted receives of src/include/server/server_ibv.h: `recv_posted` and the flag
-- `lcg_deadlock`.
use lc.Base.{
  ℕ, ◌+◌, ◌-◌, ◌≤◌, ◌<◌, ◌^◌, ◌≡◌, refl, sym, ap, ◌∙◌, List, [], ◌∷◌, ◌++◌, Option, none, some,
  Bool, true, false, ◌||◌, arith, ◌==◌, ltb, if◌then◌else◌, Option-cases, inl, inr, length,
}
use lc.Engine.{World, Build}
use lc.Calls.{post_msg_size}
use lc.Psm2.{max_rcvs}
use lc.Ibv.{Server, Verb, sge_of, data_of, post_send, post_srq_recv, reg, dereg, ibv_post_recv_}
use lc.Ibv.Progress.{
  Wc, on_recv, one_less, recv_loop, send_loop, any_event, after_sends, after_recvs, refill,
  lc_server_progress,
}

-- The receives that the library was asked to post.
abbrev pub posts : List Verb → ℕ
posts [] = 0
posts (post_srq_recv p g ∷ l) = 1 + posts l
posts (post_send q wr ∷ l) = posts l
posts (reg a n ∷ l) = posts l
posts (dereg m ∷ l) = posts l

pub posts-append : (l : List Verb) (v : Verb) → posts (l ++ v ∷ []) ≡ posts l + posts (v ∷ [])
posts-append [] v = omega arith
posts-append (post_srq_recv p g ∷ l) v = omega (arith, posts-append l v)
posts-append (post_send q wr ∷ l) v = posts-append l v
posts-append (reg a n ∷ l) v = posts-append l v
posts-append (dereg m ∷ l) v = posts-append l v

-- Of the receives that were posted, `arrived` have been completed: the counter is the number of
-- the others, at most 64, and the flag is down when all 64 are there.
pub record IsWindow (arrived : ℕ) (s : Server) : Type 0 where
  pub counted : s.recv_posted + arrived ≡ posts s.verbs
  pub bounded : s.recv_posted ≤ max_rcvs
  pub raised : s.deadlock ≡ true → s.recv_posted < max_rcvs

-- The loop over the completions changes the counter only.
abbrev Less : ℕ → Server → Server → Type 0
Less n s s' =
    (s'.recv_posted + n ≡ s.recv_posted) × (s'.deadlock ≡ s.deadlock) × (s'.verbs ≡ s.verbs)

recv_loop-cons :
    (b : Build) (s : Server) (w w1 : World) (wc : Wc) (wcs : List Wc)
    → on_recv b (one_less s) w wc ≡ some w1
    → recv_loop b s w (wc ∷ wcs) ≡ recv_loop b (one_less s) w1 wcs
unfolding recv_loop
recv_loop-cons b s w w1 wc wcs went = rw (went, recv_loop) refl

recv_loop-Less :
    (b : Build) (s s' : Server) (w w' : World) (wcs : List Wc)
    → length wcs ≤ s.recv_posted
    → s.recv_posted < 2 ^ 31
    → recv_loop b s w wcs ≡ some (s', w')
    → Less (length wcs) s s'
unfolding recv_loop
recv_loop-Less b s s' w w' [] h hi e = ground arith
recv_loop-Less b s s' w w' (wc ∷ wcs) h hi e = elim (Option-cases (on_recv b (one_less s) w wc)) [
  | inl stop ↦ ground (arith, stop, e)
  | inr (w1, went) ↦
      let rest : recv_loop b (one_less s) w1 wcs ≡ some (s', w') =
        sym (recv_loop-cons b s w w1 wc wcs went) ∙ e in
      let ih = recv_loop-Less b (one_less s) s' w1 w' wcs (omega arith) (omega arith) rest in
      (omega (arith, ih.0), ih.1, ih.2)
]

-- What a refill makes of the counter and of the flag: the flag goes up when no packet is at hand
-- and fewer than 32 receives are posted, and down with the 64th.
abbrev pub counter : ℕ → ℕ → ℕ
counter got n = if ltb n max_rcvs then (if got == 0 then n else n + 1) else n

abbrev pub flag : ℕ → ℕ → Bool → Bool
flag got n d =
    if ltb n max_rcvs
    then (if got == 0 then d || ltb n 32 else (if n == 63 then false else d))
    else d

refill-counter :
    (got local : ℕ) (s : Server) (w : World)
    → s.recv_posted ≤ max_rcvs
    → (refill got local s w).1.recv_posted ≡ counter got s.recv_posted
unfolding refill ibv_post_recv_
refill-counter got local s w h = ground arith

refill-flag :
    (got local : ℕ) (s : Server) (w : World)
    → s.recv_posted ≤ max_rcvs
    → (refill got local s w).1.deadlock ≡ flag got s.recv_posted s.deadlock
unfolding refill ibv_post_recv_
refill-flag got local s w h = ground arith

refill-posts :
    (got local : ℕ) (s : Server) (w : World)
    → s.recv_posted ≤ max_rcvs
    → posts (refill got local s w).1.verbs + s.recv_posted
      ≡ posts s.verbs + (refill got local s w).1.recv_posted
unfolding refill ibv_post_recv_
refill-posts got local s w h = ground (
  arith,
  posts-append s.verbs (post_srq_recv got (sge_of (data_of got) post_msg_size s.heap_lkey)),
)

-- A call that returns has run its loop over the completions, and then a refill.
after_sends-refill :
    (busy : Bool) (got local : ℕ) (s s' : Server) (o : Option World) (w' : World) (r : Bool)
    → after_sends busy got local s o ≡ some (r, s', w')
    → (w2 : World) × ((refill got local s w2).1 ≡ s')
after_sends-refill busy got local s s' none w' r e = cc
after_sends-refill busy got local s s' (some w2) w' r e =
    (w2, ap (λ o. elim o [ none ↦ (refill got local s w2).1 | some x ↦ x.1 ]) e)

after_recvs-refill :
    (b : Build) (busy : Bool) (sends : List ℕ) (got local : ℕ) (s' : Server) (w' : World) (r : Bool)
    (o : Option (Server × World))
    → after_recvs b busy sends got local o ≡ some (r, s', w')
    → (s1 : Server) × (w1 : World) × (o ≡ some (s1, w1))
      × (w2 : World) × ((refill got local s1 w2).1 ≡ s')
after_recvs-refill b busy sends got local s' w' r none e = cc
after_recvs-refill b busy sends got local s' w' r (some (s1, w1)) e =
    let (w2, same) =
      after_sends-refill (busy || any_event sends) got local s1 s' (send_loop b w1 sends) w' r e in
    (s1, w1, refl, w2, same)

-- The counter and the flag after a call.
pub progress-Counted :
    (b : Build) (s s' : Server) (w w' : World) (recvs : List Wc) (sends : List ℕ) (got local : ℕ)
    (r : Bool)
    → length recvs ≤ s.recv_posted
    → s.recv_posted ≤ max_rcvs
    → lc_server_progress b s w recvs sends got local ≡ some (r, s', w')
    → (s'.recv_posted ≡ counter got (s.recv_posted - length recvs))
      × (s'.deadlock ≡ flag got (s.recv_posted - length recvs) s.deadlock)
      × (posts s'.verbs + s.recv_posted ≡ posts s.verbs + (s'.recv_posted + length recvs))
unfolding lc_server_progress
progress-Counted b s s' w w' recvs sends got local r some_left fits e =
    let (s1, w1, looped, w2, same) =
      after_recvs-refill b (any_event recvs) sends got local s' w' r (recv_loop b s w recvs) e in
    let l = recv_loop-Less b s s1 w w1 recvs some_left (omega arith) looped in
    let fits1 : s1.recv_posted ≤ max_rcvs = omega (arith, l.0) in
    let left : s1.recv_posted ≡ s.recv_posted - length recvs = omega (arith, l.0) in
    let now = refill-counter got local s1 w2 fits1 in
    let posted = refill-posts got local s1 w2 fits1 in
    (
      ap (λ t. t.recv_posted) (sym same) ∙ now ∙ ap (counter got) left,
      ap (λ t. t.deadlock) (sym same)
          ∙ refill-flag got local s1 w2 fits1
          ∙ ap (λ n. flag got n s1.deadlock) left
          ∙ ap (flag got (s.recv_posted - length recvs)) l.1,
      omega (
        arith,
        posted,
        l.0,
        ap (λ t. t.recv_posted) same,
        ap (λ t. posts t.verbs) same,
        ap posts l.2,
      ),
    )

pub progress-IsWindow :
    (b : Build) (s s' : Server) (w w' : World) (recvs : List Wc) (sends : List ℕ) (a got local : ℕ)
    (r : Bool)
    → IsWindow a s
    → length recvs ≤ s.recv_posted
    → lc_server_progress b s w recvs sends got local ≡ some (r, s', w')
    → IsWindow (a + length recvs) s'
progress-IsWindow b s s' w w' recvs sends a got local r v some_left e =
    let c = progress-Counted b s s' w w' recvs sends got local r some_left v.bounded e in
    record {
      counted = omega (arith, v.counted, c.2);
      bounded = ground (arith, v.bounded, c.0);
      raised = λ up. ground (arith, v.bounded, v.raised, c.0, c.1, up);
    }
