-- ===== src/Mpi/Loops.antt =====
-- The loops of MPI_Waitall of src/mpiv.c, one by one.
use lc.Base.{
  ℕ, zero, suc, ◌+◌, ◌-◌, ◌%◌, ◌^◌, ◌≤◌, ◌<◌, ◌≡◌, refl, sym, ap, ◌∙◌, List, [], ◌∷◌, ◌++◌, Option,
  some, Bool, true, false, arith, length, replicate, map, append_assoc, append-nil,
}
use mathlib.Core.Path.{subst}
use lc.Pool.Conserve.{times}
use lc.Pool.Bounded.{CanPut}
use lc.Mpi.{
  Mpi, Below, post, sync_wait, ask, count_pending, post_one, wait_one, post_all, wait_all,
  entry_first,
}
use lc.Mpi.Balance.{nonnull, Balanced, Balanced-same, PutBack, put_request-PutBack}

-- What `lc_post` makes of an entry and of the number of those that are not known to be over.
abbrev pub entry_after : Bool → ℕ → ℕ
entry_after true r = 0
entry_after false r = r

abbrev pub number_after : Bool → ℕ → ℕ
number_after true count = count - 1
number_after false count = count

-- The array after `lc_post` has been called for each request: those that were over are null.
abbrev pub left : (ℕ → Bool) → ℕ → List ℕ → List ℕ
left oks i [] = []
left oks i (zero ∷ rs) = zero ∷ left oks (i + 1) rs
left oks i (suc r ∷ rs) = entry_after (oks i) (suc r) ∷ left oks (i + 1) rs

-- One `lc_post` for each request, with the number of those that are not known to be over.
abbrev pub posts : (ℕ → Bool) → ℕ → List ℕ → ℕ → List Below
posts oks i [] count = []
posts oks i (zero ∷ rs) count = posts oks (i + 1) rs count
posts oks i (suc r ∷ rs) count =
    post (suc r) count ∷ posts oks (i + 1) rs (number_after (oks i) count)

pub count_pending_lem :
    (rs : List ℕ) (n : ℕ) → length rs ≤ n → count_pending rs n + length rs ≡ n + length (nonnull rs)
unfolding count_pending
count_pending_lem [] n h = omega arith
count_pending_lem (zero ∷ rs) n h = ground (arith, count_pending_lem rs (n - 1) (omega arith))
count_pending_lem (suc r ∷ rs) n h = ground (arith, count_pending_lem rs n (omega arith))

-- A loop that returns the array `rs'`, the counter `count'` and the calls `asked`.
pub record Looped (all : List ℕ) (held : ℕ → ℕ) (wid : ℕ) (s : Mpi) (rs' : List ℕ) (count' : ℕ)
    (asked : List Below) (o : Option (List ℕ × ℕ × Mpi)) : Type 0 where
  pub after : Mpi
  pub returned : o ≡ some (rs', count', after)
  pub balanced : Balanced all (λ x. times x (nonnull rs') + held x) after
  pub calls : after.calls ≡ s.calls ++ asked
  pub can : CanPut after.pools wid

module _ (all : List ℕ) (wid : ℕ) where
  -- One entry and the rest of its loop.
  Looped-cons :
      (held : ℕ → ℕ) (s s1 : Mpi) (r' : ℕ) (rs' : List ℕ) (count' : ℕ) (first asked : List Below)
      (o o1 : Option (List ℕ × ℕ × Mpi))
      → s1.calls ≡ s.calls ++ first
      → o ≡ entry_first r' o1
      → Looped all (λ x. times x (nonnull (r' ∷ [])) + held x) wid s1 rs' count' asked o1
      → Looped all held wid s (r' ∷ rs') count' (first ++ asked) o
  Looped-cons held s s1 r' rs' count' first asked o o1 c e l = record {
    after = l.after;
    returned = e ∙ ap (entry_first r') l.returned;
    balanced =
        Balanced-same all (λ x. times x (nonnull rs') + (times x (nonnull (r' ∷ [])) + held x))
          (λ x. times x (nonnull (r' ∷ rs')) + held x) l.after l.after.calls (split r') l.balanced;
    calls = l.calls ∙ ap (λ k. k ++ asked) c ∙ append_assoc s.calls first asked;
    can = l.can;
  }
    where
      split :
          (r : ℕ) (x : ℕ)
          → times x (nonnull rs') + (times x (nonnull (r ∷ [])) + held x)
            ≡ times x (nonnull (r ∷ rs')) + held x
      split zero x = omega arith
      split (suc r) x = omega arith

  post_null :
      (oks : ℕ → Bool) (rs : List ℕ) (i count : ℕ) (s : Mpi)
      → post_all wid oks i (zero ∷ rs) count s
        ≡ entry_first zero (post_all wid oks (i + 1) rs count s)
  unfolding post_all post_one
  post_null oks rs i count s = refl

  post_late :
      (oks : ℕ → Bool) (rs : List ℕ) (i r count : ℕ) (s : Mpi)
      → oks i ≡ false
      → post_all wid oks i (suc r ∷ rs) count s
        ≡ entry_first (suc r) (post_all wid oks (i + 1) rs count (ask s (post (suc r) count)))
  unfolding post_all post_one
  post_late oks rs i r count s e = rw (e, post_all) refl

  post_over :
      (held : ℕ → ℕ) (oks : ℕ → Bool) (rs : List ℕ) (i r count : ℕ) (s : Mpi)
      → oks i ≡ true
      → (p : PutBack all held wid (suc r) (ask s (post (suc r) count)))
      → post_all wid oks i (suc r ∷ rs) count s
        ≡ entry_first zero (post_all wid oks (i + 1) rs ((count + 2 ^ 32 - 1) % 2 ^ 32) p.after)
  unfolding post_all post_one
  post_over held oks rs i r count s e p = rw (e, post_all) (rw p.returned refl)

  wait_step :
      (held : ℕ → ℕ) (rs : List ℕ) (r count : ℕ) (s : Mpi)
      → (p : PutBack all held wid (suc r) (ask s (sync_wait (suc r))))
      → wait_all wid (suc r ∷ rs) count s ≡ entry_first zero (wait_all wid rs count p.after)
  unfolding wait_all wait_one
  wait_step held rs r count s p = rw (p.returned, wait_all) refl

  -- The first entry of the second loop is a request, and the rest is done.
  post_first :
      (held : ℕ → ℕ) (oks : ℕ → Bool) (rs rs' : List ℕ) (i r count n : ℕ) (s : Mpi) (ok : Bool)
      (asked : ℕ → List Below)
      → oks i ≡ ok
      → Balanced all (λ x. times x (nonnull (suc r ∷ rs)) + held x) s
      → CanPut s.pools wid
      → 0 < count
      → count < 2 ^ 32
      → ((held' : ℕ → ℕ) (s' : Mpi)
          → Balanced all (λ x. times x (nonnull rs) + held' x) s'
          → CanPut s'.pools wid
          → Looped all held' wid s' rs' n
              (asked (number_after ok count))
              (post_all wid oks (i + 1) rs (number_after ok count) s'))
      → Looped all held wid s
          (entry_after ok (suc r) ∷ rs')
          n
          (post (suc r) count ∷ asked (number_after ok count))
          (post_all wid oks i (suc r ∷ rs) count s)
  post_first held oks rs rs' i r count n s true asked e b can pos hi rest =
      let p =
        put_request-PutBack all (λ x. times x (nonnull (suc r ∷ rs)) + held x)
          (λ x. times x (nonnull rs) + held x) wid (suc r) (ask s (post (suc r) count))
          (Balanced-same all (λ x. times x (nonnull (suc r ∷ rs)) + held x)
            (λ x. times x (nonnull (suc r ∷ rs)) + held x) s (s.calls ++ post (suc r) count ∷ [])
            (λ x. refl) b)
          can (omega arith) (λ x. omega arith) in
      let next : (count + 2 ^ 32 - 1) % 2 ^ 32 ≡ count - 1 = omega arith in
      Looped-cons held s p.after zero rs' n (post (suc r) count ∷ []) (asked (count - 1)) _ _
        p.calls
        (post_over (λ x. times x (nonnull rs) + held x) oks rs i r count s e p
          ∙ ap (λ c. entry_first zero (post_all wid oks (i + 1) rs c p.after)) next)
        (rest (λ x. 0 + held x) p.after
          (Balanced-same all (λ x. times x (nonnull rs) + held x)
            (λ x. times x (nonnull rs) + (0 + held x)) p.after p.after.calls (λ x. omega arith)
            p.balanced)
          p.can)
  post_first held oks rs rs' i r count n s false asked e b can pos hi rest =
      Looped-cons held s (ask s (post (suc r) count)) (suc r) rs' n (post (suc r) count ∷ [])
        (asked count) _ _ refl (post_late oks rs i r count s e)
        (rest (λ x. times x (suc r ∷ []) + held x) (ask s (post (suc r) count))
          (Balanced-same all (λ x. times x (nonnull (suc r ∷ rs)) + held x)
            (λ x. times x (nonnull rs) + (times x (suc r ∷ []) + held x)) s
            (s.calls ++ post (suc r) count ∷ []) (λ x. omega arith) b)
          can)

  -- What is known of the rest of the array for any counter, at the counter after the first entry.
  post_rest :
      (held : ℕ → ℕ) (oks : ℕ → Bool) (rs rs' : List ℕ) (i r count extra : ℕ) (s : Mpi) (ok : Bool)
      → count ≡ suc (length (nonnull rs)) + extra
      → count < 2 ^ 32
      → ((count' extra' : ℕ)
          → count' ≡ length (nonnull rs) + extra'
          → count' < 2 ^ 32
          → Looped all held wid s rs'
              (length (nonnull rs') + extra')
              (posts oks i rs count')
              (post_all wid oks i rs count' s))
      → Looped all held wid s rs'
          (length (nonnull (entry_after ok (suc r) ∷ rs')) + extra)
          (posts oks i rs (number_after ok count))
          (post_all wid oks i rs (number_after ok count) s)
  post_rest held oks rs rs' i r count extra s true e hi ih =
      ih (count - 1) extra (omega (arith, e)) (omega arith)
  post_rest held oks rs rs' i r count extra s false e hi ih =
      subst
        (λ n. Looped all held wid s rs' n (posts oks i rs count) (post_all wid oks i rs count s))
        {x = length (nonnull rs') + (extra + 1)} {y = suc (length (nonnull rs')) + extra}
        (omega arith) (ih count (extra + 1) (omega (arith, e)) hi)

  pub post_all-Looped :
      (oks : ℕ → Bool) (rs : List ℕ) (held : ℕ → ℕ) (i count extra : ℕ) (s : Mpi)
      → Balanced all (λ x. times x (nonnull rs) + held x) s
      → CanPut s.pools wid
      → count ≡ length (nonnull rs) + extra
      → count < 2 ^ 32
      → Looped all held wid s
          (left oks i rs)
          (length (nonnull (left oks i rs)) + extra)
          (posts oks i rs count)
          (post_all wid oks i rs count s)
  unfolding post_all
  post_all-Looped oks [] held i count extra s b can e hi = record {
    after = s;
    returned = ap (λ c. some ([], c, s)) e;
    balanced = b;
    calls = sym (append-nil s.calls);
    can = can;
  }
  post_all-Looped oks (zero ∷ rs) held i count extra s b can e hi =
      Looped-cons held s s zero (left oks (i + 1) rs)
        (length (nonnull (left oks (i + 1) rs)) + extra) [] (posts oks (i + 1) rs count) _ _
        (sym (append-nil s.calls)) (post_null oks rs i count s)
        (post_all-Looped oks rs (λ x. 0 + held x) (i + 1) count extra s
          (Balanced-same all (λ x. times x (nonnull rs) + held x)
            (λ x. times x (nonnull rs) + (0 + held x)) s s.calls (λ x. omega arith) b)
          can e hi)
  post_all-Looped oks (suc r ∷ rs) held i count extra s b can e hi =
      post_first held oks rs (left oks (i + 1) rs) i r count
        (length (nonnull (entry_after (oks i) (suc r) ∷ left oks (i + 1) rs)) + extra) s (oks i)
        (posts oks (i + 1) rs) refl b can (omega (arith, e)) hi
        (λ held' s' b' can'.
          post_rest held' oks rs (left oks (i + 1) rs) (i + 1) r count extra s' (oks i) e hi
            (λ count' extra' e' hi'.
              post_all-Looped oks rs held' (i + 1) count' extra' s' b' can' e' hi'))

  -- The third loop waits for each request that is left, once, and puts it back.
  pub wait_all-Looped :
      (rs : List ℕ) (held : ℕ → ℕ) (count : ℕ) (s : Mpi)
      → Balanced all (λ x. times x (nonnull rs) + held x) s
      → CanPut s.pools wid
      → Looped all held wid s
          (replicate (length rs) 0)
          count
          (map sync_wait (nonnull rs))
          (wait_all wid rs count s)
  unfolding wait_all wait_one
  wait_all-Looped [] held count s b can = record {
    after = s;
    returned = refl;
    balanced = b;
    calls = sym (append-nil s.calls);
    can = can;
  }
  wait_all-Looped (zero ∷ rs) held count s b can =
      Looped-cons held s s zero (replicate (length rs) 0) count [] (map sync_wait (nonnull rs)) _ _
        (sym (append-nil s.calls)) refl
        (wait_all-Looped rs (λ x. 0 + held x) count s
          (Balanced-same all (λ x. times x (nonnull rs) + held x)
            (λ x. times x (nonnull rs) + (0 + held x)) s s.calls (λ x. omega arith) b)
          can)
  wait_all-Looped (suc r ∷ rs) held count s b can =
      let p =
        put_request-PutBack all (λ x. times x (nonnull (suc r ∷ rs)) + held x)
          (λ x. times x (nonnull rs) + (0 + held x)) wid (suc r) (ask s (sync_wait (suc r)))
          (Balanced-same all (λ x. times x (nonnull (suc r ∷ rs)) + held x)
            (λ x. times x (nonnull (suc r ∷ rs)) + held x) s (s.calls ++ sync_wait (suc r) ∷ [])
            (λ x. refl) b)
          can (omega arith) (λ x. omega arith) in
      Looped-cons held s p.after zero (replicate (length rs) 0) count (sync_wait (suc r) ∷ [])
        (map sync_wait (nonnull rs)) _ _ p.calls
        (wait_step (λ x. times x (nonnull rs) + (0 + held x)) rs r count s p)
        (wait_all-Looped rs (λ x. 0 + held x) count p.after p.balanced p.can)
