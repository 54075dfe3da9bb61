-- ===== src/Ibv/Signals.antt =====
-- Which inline sends of src/include/server/server_ibv.h ask for a completion. The slots of a send
-- queue are given back by a completion on that queue.
use lc.Base.{
  ℕ, zero, suc, ◌+◌, ◌*◌, ◌≤◌, ◌≡◌, ◌≢◌, refl, ◌∙◌, List, [], ◌∷◌, ◌++◌, ◌&&◌, arith, ◌==◌,
  if◌then◌else◌,
}
use lc.Ibv.{
  Server, Verb, post_send, post_srq_recv, reg, dereg, inline_wr, send_with_imm, lc_server_sends,
}

-- The sends to a queue pair, and those that ask for a completion, out of the calls of the library.
abbrev pub sent_to : ℕ → List Verb → ℕ
sent_to q [] = 0
sent_to q (post_send r wr ∷ l) = (if r == q then 1 else 0) + sent_to q l
sent_to q (post_srq_recv p g ∷ l) = sent_to q l
sent_to q (reg a n ∷ l) = sent_to q l
sent_to q (dereg m ∷ l) = sent_to q l

abbrev pub signaled_to : ℕ → List Verb → ℕ
signaled_to q [] = 0
signaled_to q (post_send r wr ∷ l) = (if (r == q) && wr.signaled then 1 else 0) + signaled_to q l
signaled_to q (post_srq_recv p g ∷ l) = signaled_to q l
signaled_to q (reg a n ∷ l) = signaled_to q l
signaled_to q (dereg m ∷ l) = signaled_to q l

sent_to-append :
    (q : ℕ) (l : List Verb) (v : Verb) → sent_to q (l ++ v ∷ []) ≡ sent_to q l + sent_to q (v ∷ [])
sent_to-append q [] v = omega arith
sent_to-append q (post_send r wr ∷ l) v = omega (arith, sent_to-append q l v)
sent_to-append q (post_srq_recv p g ∷ l) v = sent_to-append q l v
sent_to-append q (reg a n ∷ l) v = sent_to-append q l v
sent_to-append q (dereg m ∷ l) v = sent_to-append q l v

signaled_to-append :
    (q : ℕ) (l : List Verb) (v : Verb)
    → signaled_to q (l ++ v ∷ []) ≡ signaled_to q l + signaled_to q (v ∷ [])
signaled_to-append q [] v = omega arith
signaled_to-append q (post_send r wr ∷ l) v = omega (arith, signaled_to-append q l v)
signaled_to-append q (post_srq_recv p g ∷ l) v = signaled_to-append q l v
signaled_to-append q (reg a n ∷ l) v = signaled_to-append q l v
signaled_to-append q (dereg m ∷ l) v = signaled_to-append q l v

-- The same short message sent `n` times to one peer.
pub send_times : ℕ → Server → ℕ → ℕ → ℕ → ℕ → Server
send_times zero s rep buf size word = s
send_times (suc n) s rep buf size word =
    send_times n (lc_server_sends s rep buf size word) rep buf size word

-- Rounds of 64 messages to one peer and one to another.
pub rounds : ℕ → Server → ℕ → ℕ → ℕ → ℕ → ℕ → Server
rounds zero s busy rare buf size word = s
rounds (suc k) s busy rare buf size word =
    rounds k (lc_server_sends (send_times 64 s busy buf size word) rare buf size word) busy rare buf
      size word

module _ (buf size word q : ℕ) where
  sends-plain :
      (s : Server)
      → s.ninline + 1 ≤ 64
      → let s' = lc_server_sends s q buf size word in
        (s'.ninline ≡ s.ninline + 1)
        × (signaled_to q s'.verbs ≡ signaled_to q s.verbs)
        × (sent_to q s'.verbs ≡ sent_to q s.verbs + 1)
  unfolding lc_server_sends
  sends-plain s h =
      let v = post_send q (inline_wr (s.ninline == 64) buf size (send_with_imm word)) in
      (
        ground arith,
        ground (arith, signaled_to-append q s.verbs v),
        ground (arith, sent_to-append q s.verbs v),
      )

  sends-elsewhere :
      (s : Server) (r : ℕ)
      → s.ninline ≡ 64
      → r ≢ q
      → let s' = lc_server_sends s r buf size word in
        (s'.ninline ≡ 0)
        × (signaled_to q s'.verbs ≡ signaled_to q s.verbs)
        × (sent_to q s'.verbs ≡ sent_to q s.verbs)
  unfolding lc_server_sends
  sends-elsewhere s r h ne =
      let v = post_send r (inline_wr (s.ninline == 64) buf size (send_with_imm word)) in
      (
        ground arith,
        ground (arith, signaled_to-append q s.verbs v),
        ground (arith, sent_to-append q s.verbs v),
      )

  send_times-plain :
      (n : ℕ) (s : Server)
      → s.ninline + n ≤ 64
      → let s' = send_times n s q buf size word in
        (s'.ninline ≡ s.ninline + n)
        × (signaled_to q s'.verbs ≡ signaled_to q s.verbs)
        × (sent_to q s'.verbs ≡ sent_to q s.verbs + n)
  unfolding send_times
  send_times-plain zero s h = (omega arith, refl, omega arith)
  send_times-plain (suc n) s h =
      let p = sends-plain s (omega arith) in
      let r = send_times-plain n (lc_server_sends s q buf size word) (omega (arith, p.0)) in
      (omega (arith, p.0, r.0), r.1 ∙ p.1, omega (arith, p.2, r.2))

  -- From the counter 0 on, however many rounds are made, not one of the messages to the first
  -- peer asks for a completion, although 64 are sent in each round.
  pub rounds-starve :
      (k : ℕ) (s : Server) (rare : ℕ)
      → s.ninline ≡ 0
      → rare ≢ q
      → let s' = rounds k s q rare buf size word in
        (signaled_to q s'.verbs ≡ signaled_to q s.verbs)
        × (sent_to q s'.verbs ≡ sent_to q s.verbs + 64 * k)
  unfolding rounds
  rounds-starve zero s rare z ne = (refl, omega arith)
  rounds-starve (suc k) s rare z ne =
      let s1 = send_times 64 s q buf size word in
      let s2 = lc_server_sends s1 rare buf size word in
      let many = send_times-plain 64 s (omega (arith, z)) in
      let one = sends-elsewhere s1 rare (omega (arith, many.0, z)) ne in
      let rest = rounds-starve k s2 rare one.0 ne in
      (rest.0 ∙ one.1 ∙ many.1, omega (arith, rest.1, one.2, many.2))
