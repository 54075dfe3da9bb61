-- ===== src/Ibv/Names.antt =====
-- The names under which `lc_server_init` of src/include/server/server_ibv.h publishes its queue
-- pairs: `"%llu-%d-%d-%d"` with the address of the heap, its key, the number of the queue pair and
-- the local identifier of the port.
use lc.Base.{
  ℕ, ◌%◌, ◌^◌, ◌≤◌, ◌<◌, ◌≡◌, refl, ap, List, [], ◌∷◌, Option, none, some, arith, ◌==◌,
  if◌then◌else◌, length,
}
use lc.Pm.{print_llu, print_d, scan_llu, scan_d}
use lc.Pm.Decimal.{scan-print_llu, scan-print_d, length-print_llu, length-print_d}

-- `struct conn_ctx` without `gid`, which is not set.
pub record ConnCtx : Type 0 where
  pub addr : ℕ
  pub rkey : ℕ
  pub qp_num : ℕ
  pub lid : ℕ

-- sprintf
unfoldable pub ep_name : ConnCtx → List ℕ
ep_name c =
    print_llu c.addr (b'-' ∷ print_d c.rkey (b'-' ∷ print_d c.qp_num (b'-' ∷ print_d c.lid [])))

-- A literal dash of the format.
abbrev pub dash : Option (ℕ × List ℕ) → Option (ℕ × List ℕ)
dash none = none
dash (some (n, [])) = none
dash (some (n, c ∷ cs)) = if c == b'-' then some (n, cs) else none

infixl 5 ◌>>=◌
abbrev pub ◌>>=◌ : {A B : Type 0} → Option A → (A → Option B) → Option B
none >>= f = none
some a >>= f = f a

-- sscanf; `lid` is read as an int over its 16 bits.
unfoldable pub scan_name : List ℕ → Option ConnCtx
scan_name t = do
  (addr, t1) ← dash (scan_llu t)
  (rkey, t2) ← dash (scan_d t1)
  (qp_num, t3) ← dash (scan_d t2)
  (lid, t4) ← scan_d t3
  some (record { addr = addr; rkey = rkey; qp_num = qp_num; lid = lid % 2 ^ 16 })

-- A connection in the widths of its fields is read back as it was printed, and the name has at
-- most 86 bytes.
pub scan-ep_name :
    (c : ConnCtx)
    → c.addr < 2 ^ 64
    → c.rkey < 2 ^ 32
    → c.qp_num < 2 ^ 32
    → c.lid < 2 ^ 16
    → (scan_name (ep_name c) ≡ some c) × (length (ep_name c) ≤ 86)
unfolding scan_name ep_name
scan-ep_name c ha hk hq hl =
    let t3 = b'-' ∷ print_d c.lid [] in
    let t2 = b'-' ∷ print_d c.qp_num t3 in
    let t1 = b'-' ∷ print_d c.rkey t2 in
    let lid : c.lid % 2 ^ 16 ≡ c.lid = omega arith in
    (
      rw (scan-print_llu c.addr t1 ha refl) (
          rw (scan-print_d c.rkey t2 hk refl) (
            rw (scan-print_d c.qp_num t3 hq refl) (
              rw (scan-print_d c.lid [] (omega arith) refl) (
                ap (λ x. some (record { addr = c.addr; rkey = c.rkey; qp_num = c.qp_num; lid = x }))
                  lid)))),
      omega (
        arith,
        length-print_llu c.addr t1,
        length-print_d c.rkey t2,
        length-print_d c.qp_num t3,
        length-print_d c.lid [],
      ),
    )
