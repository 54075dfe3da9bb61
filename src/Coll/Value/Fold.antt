-- ===== src/Coll/Value/Fold.antt =====
-- The schedule of src/coll/ialreduce.h on one rank: its parts, and what they do and send.
use lc.Base.{
  ℕ, ◌+◌, ◌-◌, ◌*◌, ◌%◌, ◌≤◌, ◌<◌, ◌≡◌, ◌≢◌, ap, ◌∙◌, List, [], ◌∷◌, ◌++◌, Bool, ◌&&◌, ◌==◌, ltb,
  if◌then◌else◌, arith,
}
use mathlib.Core.Path.{subst}
use lc.Coll.{Sched, send, mem, free, fold_in, fold_out, exchange_if, new_rank, tag_iallreduce}
use lc.Coll.Value.{effect, after, Sends}
use lc.Coll.Value.Exchange.{after-append}

module _ (extra adjsize r b rb count ep : ℕ) where
  -- The schedule without the fold out, with it, and with the copy of the result.
  abbrev pub reduced : List Sched
  reduced =
      fold_in extra r b rb count ep ++ exchange_if (new_rank extra r) adjsize extra b rb count ep

  abbrev pub answered : List Sched
  answered = reduced ++ fold_out extra r b rb count ep

  abbrev pub even_low : Bool
  even_low = ltb r (2 * extra) && (r % 2 == 0)

  abbrev pub result : ℕ
  result = if even_low then rb else b

  abbrev pub copied : List Sched
  copied = answered ++ (if result == rb then [] else mem rb result count ∷ [])

  abbrev pub whole : List Sched
  whole = copied ++ (if b == 0 then [] else free b ∷ [])

  module _ {A : Type 0} (f : A → A → A) (inbox outbox : ℕ → A) (apart : b ≢ rb) where
    after-free : (m : ℕ → A) → after f inbox (if b == 0 then [] else free b ∷ []) m rb ≡ m rb
    unfolding after effect
    after-free m = ground arith

    after-copy :
        (t : ℕ) (m : ℕ → A) → after f inbox (if t == rb then [] else mem rb t count ∷ []) m rb ≡ m t
    unfolding after effect
    after-copy t m = ground arith

    pub after-fold_in :
        (m : ℕ → A)
        → (r < 2 * extra
            → r % 2 ≡ 1
            → after f inbox (fold_in extra r b rb count ep) m b ≡ f (m b) (inbox (r - 1)))
          × (2 * extra ≤ r → after f inbox (fold_in extra r b rb count ep) m b ≡ m b)
    unfolding after effect fold_in
    after-fold_in m = (λ l o. ground (arith, apart, l, o), λ l. ground (arith, l))

    pub after-fold_out :
        (m : ℕ → A)
        → (r < 2 * extra
            → r % 2 ≡ 0
            → after f inbox (fold_out extra r b rb count ep) m result ≡ inbox (r + 1))
          × ((r < 2 * extra → r % 2 ≡ 1)
              → after f inbox (fold_out extra r b rb count ep) m result ≡ m b)
    unfolding after effect fold_out
    after-fold_out m = (λ l o. ground (arith, l, o), λ l. ground (arith, l))

    pub after-whole : (m : ℕ → A) → after f inbox whole m rb ≡ after f inbox answered m result
    after-whole m =
        let copy = if result == rb then [] else mem rb result count ∷ [] in
        ap (λ g. g rb) (after-append f inbox outbox copied (if b == 0 then [] else free b ∷ []) m)
        ∙ after-free (after f inbox copied m)
        ∙ ap (λ g. g rb) (after-append f inbox outbox answered copy m)
        ∙ after-copy result (after f inbox answered m)

    -- The messages of the low ranks.
    pub Sends-fold_in :
        (m : ℕ → A)
        → Sends f inbox outbox (fold_in extra r b rb count ep) m
        → r < 2 * extra
        → r % 2 ≡ 0
        → outbox (r + 1) ≡ m b
    unfolding fold_in
    Sends-fold_in m s l o =
        let e : fold_in extra r b rb count ep ≡ send b count (r + 1) tag_iallreduce ep ∷ [] =
          ground (arith, l, o) in
        (subst (λ z. Sends f inbox outbox z m) e s).0

    pub Sends-fold_out :
        (m : ℕ → A)
        → Sends f inbox outbox (fold_out extra r b rb count ep) m
        → r < 2 * extra
        → r % 2 ≡ 1
        → outbox (r - 1) ≡ m b
    unfolding fold_out
    Sends-fold_out m s l o =
        let e : fold_out extra r b rb count ep ≡ send b count (r - 1) tag_iallreduce ep ∷ [] =
          ground (arith, l, o) in
        (subst (λ z. Sends f inbox outbox z m) e s).0
