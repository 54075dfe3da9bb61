-- ===== src/Endpoint.antt =====
-- Endpoints: their capabilities (include/lc.h), `lci_ep_open` (src/include/lc_priv.h) and
-- `lc_ep_dup` (src/ep.c).
pub mod Open
use lc.Base.{ℕ, ◌+◌, ◌*◌, ◌^◌, Bool, true, false, not, ◌==◌, if◌then◌else◌, bit_and, bit_or}
use lc.Cq.{CompQueue, cq_init}
use lc.HashTable.{Table, lc_hash_create}

-- `lc_ep_addr` and `lc_ep_ce`.
abbrev pub ar_dyn : ℕ
ar_dyn = 2

abbrev pub ar_exp : ℕ
ar_exp = 4

abbrev pub ar_imm : ℕ
ar_imm = 8

abbrev pub ce_null : ℕ
ce_null = 0

abbrev pub ce_sync : ℕ
ce_sync = 32

abbrev pub ce_cq : ℕ
ce_cq = 64

abbrev pub ce_am : ℕ
ce_am = 128

abbrev pub ce_glob : ℕ
ce_glob = 256

-- `cap & flag` as a test.
abbrev pub has : ℕ → ℕ → Bool
has cap flag = not (bit_and cap flag == 0)

-- `struct lci_ep`. `alloc` shares its place with `tbl`, and `handler` with `cq`; which one is in
-- use follows from `cap`. `alloc` is the user's function from a size to a buffer and a context.
pub record Ep : Type 0 where
  pub cap : ℕ
  pub gid : ℕ
  pub completed : ℕ
  pub server : ℕ
  pub alloc : ℕ → ℕ × ℕ
  pub tbl : Table
  pub handler : ℕ
  pub cq : CompQueue

-- `struct lc_opt`
pub record Opt : Type 0 where
  pub dev : ℕ
  pub addr : ℕ
  pub ce : ℕ
  pub alloc : ℕ → ℕ × ℕ
  pub handler : ℕ
  pub glob : ℕ

-- The globals `lcg_ep` and `lcg_nep` of src/lc.c.
pub record Endpoints : Type 0 where
  pub lcg_ep : ℕ → Ep
  pub lcg_nep : ℕ

abbrev pub put_ep : (ℕ → Ep) → ℕ → Ep → ℕ → Ep
put_ep eps g ep i = if g == i then ep else eps i

-- `fresh` is what the memory from `posix_memalign` happens to hold.
unfoldable pub lci_ep_open : Endpoints → Ep → ℕ → ℕ → Ep × Endpoints
lci_ep_open g fresh dev cap =
    let base : Ep = record fresh { server = dev; cap = cap; gid = g.lcg_nep } in
    let ep : Ep =
      if has cap ar_exp
      then record base { tbl = lc_hash_create }
      else record base { cq = cq_init } in
    (ep, record { lcg_ep = put_ep g.lcg_ep ep.gid ep; lcg_nep = g.lcg_nep + 1 })

-- The changes that `lc_ep_dup` makes to the endpoint it has opened.
abbrev pub dup_alloc : Opt → Ep → Ep
dup_alloc opt ep = if opt.addr == ar_dyn then record ep { alloc = opt.alloc } else ep

abbrev pub dup_handler : Opt → Ep → Ep
dup_handler opt ep = if opt.ce == ce_am then record ep { handler = opt.handler } else ep

abbrev pub dup_glob : Opt → Ep → Ep
dup_glob opt ep =
    if opt.glob == 0 then ep else record ep { cap = bit_or ep.cap ce_glob; completed = 0 }

-- The endpoint is changed through `lcg_ep`'s pointer, so the global sees the changes.
unfoldable pub lc_ep_dup : Endpoints → Ep → Opt → Ep × Endpoints
lc_ep_dup g fresh opt =
    let (ep, g') = lci_ep_open g fresh opt.dev (bit_or opt.addr opt.ce) in
    let ep' = dup_glob opt (dup_handler opt (dup_alloc opt ep)) in
    (ep', record g' { lcg_ep = put_ep g'.lcg_ep ep.gid ep' })

-- `lc_glob_mark` of src/glob.c
pub lc_glob_mark : Ep → ℕ
lc_glob_mark ep = ep.completed
