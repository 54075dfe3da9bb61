-- ===== src/Endpoint/Open.antt =====
-- What opening an endpoint leaves in the globals.
use lc.Base.{ℕ, ◌+◌, ◌≡◌, ◌≢◌, refl, arith, ◌==◌, if◌then◌else◌, bit_or}
use lc.Endpoint.{Ep, Opt, Endpoints, ce_glob, lci_ep_open, lc_ep_dup}

-- `lc_ep_dup` gives the endpoint the next number, with which a peer names it, under which
-- `lcg_ep` then holds it with all its settings; the endpoints that were there stay, and the next
-- number goes up by one.
pub lc_ep_dup-numbered :
    (e : Endpoints) (fresh : Ep) (opt : Opt)
    → let (ep, e') = lc_ep_dup e fresh opt in
      (ep.gid ≡ e.lcg_nep)
      × (e'.lcg_nep ≡ e.lcg_nep + 1)
      × (e'.lcg_ep e.lcg_nep ≡ ep)
      × ((i : ℕ) → i ≢ e.lcg_nep → e'.lcg_ep i ≡ e.lcg_ep i)
      × (ep.cap ≡ (
          if opt.glob == 0
          then bit_or opt.addr opt.ce
          else bit_or (bit_or opt.addr opt.ce) ce_glob))
unfolding lc_ep_dup lci_ep_open
lc_ep_dup-numbered e fresh opt =
    (ground arith, refl, ground arith, λ i n. ground arith, ground arith)
