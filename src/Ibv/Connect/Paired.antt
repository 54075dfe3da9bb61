-- ===== src/Ibv/Connect/Paired.antt =====
-- Every queue pair is connected to the one that its peer keeps for it.
use lc.Base.{
  ℕ, zero, suc, ◌+◌, ◌*◌, ◌%◌, ◌^◌, ◌≤◌, ◌<◌, ◌≡◌, ◌≢◌, ◌⊎◌, inl, inr, refl, sym, ap, ◌∙◌, List, [],
  ◌∷◌, none, some, arith, get_or, bit_or,
}
use mathlib.Core.Path.{subst}
use lc.Base.Bits.{bit_or_field_left}
use lc.Pm.{Kvs, pm_key, lc_pm_publish, lc_pm_getname}
use lc.Pm.Decimal.{pm_key-injective}
use lc.Ibv.Names.{ConnCtx, ep_name, scan-ep_name}
use lc.Ibv.Connect.{
  Job, lctx, gid_of, Link, link_of, add_link, scanned, publish, publish_all, peer, connect,
}

-- The pair stands in an order, or does not.
abbrev pub Has : ℕ → ℕ → List (ℕ × ℕ) → Type 0
Has me i [] = ⊥
Has me i ((r, j) ∷ order) = (r ≡ me) × (j ≡ i) ⊎ Has me i order

-- Each pair stands in it at most once, and its processes are below `n`.
abbrev pub Once : ℕ → List (ℕ × ℕ) → Type 0
Once n [] = Unit
Once n ((r, j) ∷ order) = (r < n) × (j < n) × ¬ Has r j order × Once n order

-- The values of the first `n` processes fit the fields.
pub record InWidth (job : Job) (n : ℕ) : Type 0 where
  pub heap_of : (r : ℕ) → r < n → job.heap_of r < 2 ^ 64
  pub rkey_of : (r : ℕ) → r < n → job.rkey_of r < 2 ^ 32
  pub lid_of : (r : ℕ) → r < n → job.lid_of r < 2 ^ 16
  pub qp_num : (r i : ℕ) → r < n → i < n → job.qp_num r i < 2 ^ 32

subst2 : {A : Type 0} (P : A → A → Type 0) {a b c d : A} → a ≡ b → c ≡ d → P a c → P b d
subst2 P {a} {b} {c} {d} e e' x = subst (λ y. P b y) e' (subst (λ y. P y c) e x)

gid_of-eq : (id i : ℕ) → id < 2 ^ 22 → i < 256 → gid_of id i ≡ id * 256 + i
unfolding gid_of
gid_of-eq id i h k =
    let e : id * 2 ^ 8 % 2 ^ 32 ≡ id * 256 = omega arith in
    ap (λ x. bit_or x i) e ∙ bit_or_field_left 8 22 id i (omega arith) (omega arith)

module _ (kvs : Kvs) (job : Job) (id n : ℕ) (few : n ≤ 256) (low : id < 2 ^ 22) where
  open kvs use {Space, put, get, get-put_self, get-put_ne}

  abbrev key : ℕ → ℕ → List ℕ
  key me i = pm_key me (gid_of id i)

  key-injective :
      (r j me i : ℕ) → r < n → j < n → me < n → i < n → key r j ≡ key me i → (r ≡ me) × (j ≡ i)
  key-injective r j me i hr hj hm hi e =
      let gj = gid_of-eq id j low (omega arith) in
      let gi = gid_of-eq id i low (omega arith) in
      let (same, gids) =
        pm_key-injective r (gid_of id j) me (gid_of id i) (omega arith) (omega (arith, gj))
          (omega arith) (omega (arith, gi)) e in
      (same, omega (arith, gids, gj, gi))

  -- Later publications of others leave a name.
  publish_all-other :
      (order : List (ℕ × ℕ)) (s : Space) (me i : ℕ)
      → me < n
      → i < n
      → Once n order
      → ¬ Has me i order
      → get (publish_all kvs job id s order) (key me i) ≡ get s (key me i)
  unfolding publish_all publish lc_pm_publish
  publish_all-other [] s me i hm hi once other = refl
  publish_all-other ((r, j) ∷ order) s me i hm hi once other =
      publish_all-other order (publish kvs job id s r j) me i hm hi once.3 (λ h. other (inr h))
      ∙ get-put_ne s (key r j) (key me i) (ep_name (lctx job r j))
          (λ e. other (inl (key-injective r j me i once.0 once.1 hm hi e)))

  published :
      (order : List (ℕ × ℕ)) (s : Space) (me i : ℕ)
      → me < n
      → i < n
      → Once n order
      → Has me i order
      → get s (key me i) ≡ none
      → get (publish_all kvs job id s order) (key me i) ≡ some (ep_name (lctx job me i))
  unfolding publish_all publish lc_pm_publish
  published [] s me i hm hi once h fresh = absurd h
  published ((r, j) ∷ order) s me i hm hi once (inl (e, e')) fresh =
      let gone : ¬ Has me i order = subst2 (λ x y. ¬ Has x y order) e e' once.2 in
      let now = get-put_self s (key me i) (ep_name (lctx job me i)) fresh in
      publish_all-other order (publish kvs job id s r j) me i hm hi once.3 gone
      ∙ subst2
          (λ x y.
            get (put s (key x y) (ep_name (lctx job x y))) (key me i)
            ≡ some (ep_name (lctx job me i)))
          (sym e) (sym e') now
  published ((r, j) ∷ order) s me i hm hi once (inr h) fresh =
      let ne : key r j ≢ key me i = λ k.
        let (e, e') = key-injective r j me i once.0 once.1 hm hi k in
        once.2 (subst2 (λ x y. Has x y order) (sym e) (sym e') h) in
      published order (publish kvs job id s r j) me i hm hi once.3 h
        (get-put_ne s (key r j) (key me i) (ep_name (lctx job r j)) ne ∙ fresh)

  -- What process `me` reads for peer `i` is what `i` published for it.
  peer_lem :
      (s : Space) (me i : ℕ)
      → InWidth job n
      → me < n
      → i < n
      → get s (key i me) ≡ some (ep_name (lctx job i me))
      → peer kvs job id s me i ≡ some (lctx job i me)
  unfolding peer lc_pm_getname
  peer_lem s me i w hm hi e =
      let fits = scan-ep_name (lctx job i me) in
      ap scanned e
      ∙ (fits (w.heap_of i hi) (w.rkey_of i hi) (w.qp_num i me hi hm) (w.lid_of i hi)).0

  connect-cons :
      (s : Space) (qp : ℕ → ℕ) (me k i : ℕ) (c : ConnCtx) (ls : List Link)
      → peer kvs job id s me i ≡ some c
      → connect kvs job id s qp me k (i + 1) ≡ some ls
      → connect kvs job id s qp me (suc k) i ≡ some (link_of qp i c ∷ ls)
  unfolding connect
  connect-cons s qp me k i c ls e rest = rw (e, connect) (ap (add_link (link_of qp i c)) rest)

  abbrev blank : Link
  blank = record { rank = 0; handle = 0; rkey = 0; base = 0; dest = 0 }

  connect-links :
      (s : Space) (qp : ℕ → ℕ) (me k i : ℕ)
      → ((p : ℕ) → p < n → peer kvs job id s me p ≡ some (lctx job p me))
      → i + k ≤ n
      → (ls : List Link) × (connect kvs job id s qp me k i ≡ some ls)
        × ((p : ℕ) → p < k → get_or ls p blank ≡ link_of qp (i + p) (lctx job (i + p) me))
  unfolding connect
  connect-links s qp me zero i all h = ([], refl, λ p lt. absurd (omega arith))
  connect-links s qp me (suc k) i all h =
      let (ls, went, each) = connect-links s qp me k (i + 1) all (omega arith) in
      let c = lctx job i me in
      (link_of qp i c ∷ ls, connect-cons s qp me k i c ls (all i (omega arith)) went, at c ls each)
    where
      at :
          (c : ConnCtx) (ls : List Link)
          → ((p : ℕ) → p < k → get_or ls p blank ≡ link_of qp (i + 1 + p) (lctx job (i + 1 + p) me))
          → (p : ℕ) → p < suc k
          → get_or (link_of qp i (lctx job i me) ∷ ls) p blank
            ≡ link_of qp (i + p) (lctx job (i + p) me)
      at c ls each zero lt =
          ap (λ x. link_of qp x (lctx job x me)) {x = i} {y = i + 0} (omega arith)
      at c ls each (suc p) lt =
          each p (omega arith)
          ∙ ap (λ x. link_of qp x (lctx job x me)) {x = i + 1 + p} {y = i + suc p} (omega arith)

  -- In a job of at most 256 processes, once every process has published a name for every process
  -- in whatever order under keys that were free, each process connects: its queue pair for a peer
  -- to the queue pair that the peer keeps for it, with the peer's heap and key.
  pub connect-paired :
      (order : List (ℕ × ℕ)) (s : Space) (qp : ℕ → ℕ) (me : ℕ)
      → InWidth job n
      → Once n order
      → ((r i : ℕ) → r < n → i < n → Has r i order)
      → ((r i : ℕ) → r < n → i < n → get s (pm_key r (gid_of id i)) ≡ none)
      → me < n
      → (ls : List Link) × (connect kvs job id (publish_all kvs job id s order) qp me n 0 ≡ some ls)
        × ((p : ℕ)
            → p < n
            → get_or ls p (record { rank = 0; handle = 0; rkey = 0; base = 0; dest = 0 }) ≡ record {
              rank = p;
              handle = qp p;
              rkey = job.rkey_of p;
              base = job.heap_of p;
              dest = job.qp_num p me;
            })
  connect-paired order s qp me w once all fresh hm =
      let s' = publish_all kvs job id s order in
      let (ls, went, each) =
        connect-links s' qp me n 0
          (λ p h.
            peer_lem s' me p w hm h
              (published order s p me h hm once (all p me h hm) (fresh p me h hm)))
          (omega arith) in
      (
        ls,
        went,
        λ p h. each p h ∙ ap (λ x. link_of qp x (lctx job x me)) {x = 0 + p} {y = p} (omega arith),
      )
