-- ===== src/Ibv/Open/Loops.antt =====
-- The two loops over the queue pairs in lc_server_init of src/include/server/server_ibv.h, when the
-- library grants everything.
use lc.Base.{
  ℕ, zero, suc, ◌+◌, ◌≤◌, ◌<◌, ◌≡◌, ◌≢◌, refl, sym, ap, ◌∙◌, List, [], ◌∷◌, ◌++◌, some, arith, ◌==◌,
  ==_refl, if◌then◌else◌, ltb, append-nil, append_assoc, Bool-cases, inl, inr,
}
use lc.Engine.{put_at}
use lc.Calls.{max_inline}
use lc.Pm.{Kvs, lc_pm_publish, lc_pm_getname}
use lc.Ibv.{Server}
use lc.Ibv.Names.{ConnCtx, ep_name}
use lc.Ibv.Connect.{Link, link_of, gid_of, scanned}
use lc.Ibv.Open.{
  QpAttr, to_init, to_rtr, to_rts, Library, Opened, qp_create, modify, new_qp, connect_qp, name_of,
  create_all, connect_all,
}
use lc.Ibv.Open.History.{of_each}

-- The library creates the first `size` queue pairs and changes each as it is asked to.
pub record Grants (a : Library) (size : ℕ) : Type 0 where
  pub created : (i : ℕ) → i < size → a.create_qp i ≢ 0
  pub modified : (qp : ℕ) (x : QpAttr) → a.modify_qp qp x ≡ 0

-- What no loop changes.
pub record Alike (s s' : Server) : Type 0 where
  pub recv_posted : s'.recv_posted ≡ s.recv_posted
  pub deadlock : s'.deadlock ≡ s.deadlock
  pub verbs : s'.verbs ≡ s.verbs
  pub heap : s'.heap ≡ s.heap

abbrev pub inits : ℕ → ℕ → List QpAttr
inits port i = to_init port ∷ []

abbrev pub connects : Library → ℕ → (ℕ → ConnCtx) → ℕ → List QpAttr
connects a port c i = to_rtr port (a.mtu_at port) (c i).qp_num (c i).lid ∷ to_rts ∷ []

-- The entries of `s->rep`, `n` from `i` on.
pub reps_of : (ℕ → ℕ) → (ℕ → ConnCtx) → ℕ → ℕ → List Link
reps_of qp c i zero = []
reps_of qp c i (suc n) = link_of qp i (c i) ∷ reps_of qp c (i + 1) n

-- After the first loop: queue pairs `i` to `i + n - 1` are created and initialised.
pub record Created (a : Library) (port n i : ℕ) (o o' : Opened) : Type 0 where
  pub inside : (j : ℕ) → i ≤ j → j < i + n → o'.server.qp j ≡ a.create_qp j
  pub outside : (j : ℕ) → j < i → o'.server.qp j ≡ o.server.qp j
  pub setup : o'.setup ≡ o.setup ++ of_each a.create_qp (inits port) i n
  pub reps : o'.reps ≡ o.reps
  pub alike : Alike o.server o'.server

-- After the second: they are connected.
pub record Connected (a : Library) (port : ℕ) (c : ℕ → ConnCtx) (n i : ℕ) (o o' : Opened)
    : Type 0 where
  pub server : o'.server ≡ o.server
  pub setup : o'.setup ≡ o.setup ++ of_each o.server.qp (connects a port c) i n
  pub reps : o'.reps ≡ o.reps ++ reps_of o.server.qp c i n

module _ (kvs : Kvs) (a : Library) (id me port : ℕ) where
  open kvs use {Space}

  -- The names of the first loop.
  pub publish_names : ℕ → ℕ → Space → Space
  publish_names zero i s = s
  publish_names (suc n) i s =
      publish_names n (i + 1)
        (lc_pm_publish kvs s me (gid_of id i) (ep_name (name_of a port (a.create_qp i))))

  abbrev one : ℕ → Opened → Opened
  one i o =
      let cap = a.max_inline_data i in
      record o {
        server = record (o.server) {
          qp = put_at o.server.qp i (a.create_qp i);
          max_inline = if ltb cap max_inline then cap else max_inline;
        };
        setup = o.setup ++ (a.create_qp i, to_init port) ∷ [];
      }

  module _ (size : ℕ) (g : Grants a size) where
    new_qp-one : (i : ℕ) (o : Opened) → i < size → new_qp a port i o ≡ some (one i o)
    unfolding new_qp qp_create modify
    new_qp-one i o h = ground (arith, g.created i h, g.modified (a.create_qp i) (to_init port))

    create-step :
        (n i : ℕ) (o : Opened) (s : Space)
        → i < size
        → create_all kvs a id me port (suc n) i o s
          ≡ create_all kvs a id me port n
              (i + 1)
              (one i o)
              (lc_pm_publish kvs s me (gid_of id i) (ep_name (name_of a port (a.create_qp i))))
    unfolding create_all
    create-step n i o s h =
        rw (new_qp-one i o h, create_all)
          (ap
            (λ q.
              create_all kvs a id me port n (i + 1) (one i o)
                (lc_pm_publish kvs s me (gid_of id i) (ep_name (name_of a port q))))
            {x = put_at o.server.qp i (a.create_qp i) i} {y = a.create_qp i} (rw (==_refl i)))

    pub create_all-Created :
        (n i : ℕ) (o : Opened) (s : Space)
        → i + n ≤ size
        → (o' : Opened) × (create_all kvs a id me port n i o s ≡ some (o', publish_names n i s))
          × Created a port n i o o'
    unfolding create_all publish_names
    create_all-Created zero i o s h = (
      o,
      refl,
      record {
        inside = λ j le lt. absurd (omega (arith, le, lt));
        outside = λ j lt. refl;
        setup = sym (append-nil o.setup);
        reps = refl;
        alike = record { recv_posted = refl; deadlock = refl; verbs = refl; heap = refl };
      },
    )
    create_all-Created (suc n) i o s h =
        let (o', went, c) =
          create_all-Created n (i + 1) (one i o)
            (lc_pm_publish kvs s me (gid_of id i) (ep_name (name_of a port (a.create_qp i))))
            (omega arith) in
        (
          o',
          create-step n i o s (omega arith) ∙ went,
          record {
            inside = λ j le lt. elim (Bool-cases (i == j)) [
              | inl e ↦
                  let same : i ≡ j = ground (arith, e) in
                  c.outside j (omega (arith, same)) ∙ rw e (ap a.create_qp same)
              | inr e ↦ c.inside j (ground (arith, e, le)) (omega (arith, lt))
            ];
            outside = λ j lt. c.outside j (omega (arith, lt)) ∙ ground (arith, lt);
            setup = c.setup ∙ append_assoc o.setup ((a.create_qp i, to_init port) ∷ []) _;
            reps = c.reps;
            alike = record {
              recv_posted = c.alike.recv_posted;
              deadlock = c.alike.deadlock;
              verbs = c.alike.verbs;
              heap = c.alike.heap;
            };
          },
        )

    abbrev other : ConnCtx → ℕ → Opened → Opened
    other c i o = record o {
      reps = o.reps ++ link_of o.server.qp i c ∷ [];
      setup =
          (o.setup ++ (o.server.qp i, to_rtr port (a.mtu_at port) c.qp_num c.lid) ∷ [])
          ++ (o.server.qp i, to_rts) ∷ [];
    }

    connect_qp-other :
        (i : ℕ) (o : Opened) (c : ConnCtx) → connect_qp a port i o c ≡ some (other c i o)
    unfolding connect_qp modify
    connect_qp-other i o c = ground (
      arith,
      g.modified (o.server.qp i) (to_rtr port (a.mtu_at port) c.qp_num c.lid),
      g.modified (o.server.qp i) to_rts,
    )

    connect-step :
        (n i : ℕ) (o : Opened) (s : Space) (c : ConnCtx)
        → scanned (lc_pm_getname kvs s i (gid_of id me)) ≡ some c
        → connect_all kvs a id me port (suc n) i o s
          ≡ connect_all kvs a id me port n (i + 1) (other c i o) s
    unfolding connect_all
    connect-step n i o s c e = rw (e, connect_all) (rw (connect_qp-other i o c) refl)

    pub connect_all-Connected :
        (c : ℕ → ConnCtx) (n i : ℕ) (o : Opened) (s : Space)
        → i + n ≤ size
        → ((j : ℕ) → j < size → scanned (lc_pm_getname kvs s j (gid_of id me)) ≡ some (c j))
        → (o' : Opened) × (connect_all kvs a id me port n i o s ≡ some o')
          × Connected a port c n i o o'
    unfolding connect_all reps_of
    connect_all-Connected c zero i o s h named = (
      o,
      refl,
      record { server = refl; setup = sym (append-nil o.setup); reps = sym (append-nil o.reps) },
    )
    connect_all-Connected c (suc n) i o s h named =
        let (o', went, r) =
          connect_all-Connected c n (i + 1) (other (c i) i o) s (omega arith) named in
        (
          o',
          connect-step n i o s (c i) (named i (omega arith)) ∙ went,
          record {
            server = r.server;
            setup =
                r.setup
                ∙ append_assoc _ ((o.server.qp i, to_rts) ∷ []) _
                ∙ append_assoc o.setup (_ ∷ []) _;
            reps = r.reps ∙ append_assoc o.reps (link_of o.server.qp i (c i) ∷ []) _;
          },
        )
