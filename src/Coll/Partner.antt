-- ===== src/Coll/Partner.antt =====
-- The pairs of the exchange of src/coll/ialreduce.h.
use lc.Base.{ℕ, ◌+◌, ◌-◌, ◌/◌, ◌^◌, ◌<◌, ◌≡◌, ◌≢◌, sym, ap, ◌∙◌, some, arith, bit_xor}
use lc.Base.Bits.{pow2, bit_xor-lt, bit_xor-twice, bit_xor_self}
use lc.Coll.{new_rank, remote_of, next_poweroftwo}
use lc.Coll.Schedule.{next_poweroftwo-half}

-- The numbers are those of the ranks that exchange.
pub new_rank-remote_of : (extra n : ℕ) → new_rank extra (remote_of extra n) ≡ some n
unfolding new_rank remote_of
new_rank-remote_of extra n = ground arith

remote_of-new_rank : (extra rank n : ℕ) → new_rank extra rank ≡ some n → remote_of extra n ≡ rank
unfolding new_rank remote_of
remote_of-new_rank extra rank n h = ground (arith, h)

-- The number of an exchanging rank is below the power of two.
new_rank-lt :
    (extra p size rank n : ℕ)
    → size ≡ p + extra
    → extra < p
    → rank < size
    → new_rank extra rank ≡ some n
    → n < p
unfolding new_rank
new_rank-lt extra p size rank n e l h m = ground (arith, m)

pub remote_of-lt :
    (extra p size n : ℕ) → size ≡ p + extra → extra < p → n < p → remote_of extra n < size
unfolding remote_of
remote_of-lt extra p size n e l h = ground arith

-- In an allreduce of any number of processes, at a distance below the power of two, the partner of
-- an exchanging rank is another rank that exchanges, and its partner at that distance is the rank.
pub partner-mutual :
    (size rank n distance : ℕ)
    → 0 < size
    → size < 2 ^ 31
    → rank < size
    → 0 < distance
    → distance < next_poweroftwo size / 2
    → let extra = size - next_poweroftwo size / 2 in
      new_rank extra rank ≡ some n
      → let remote = remote_of extra (bit_xor n distance) in
        (remote < size)
        × (remote ≢ rank)
        × (new_rank extra remote ≡ some (bit_xor n distance))
        × (remote_of extra (bit_xor (bit_xor n distance) distance) ≡ rank)
partner-mutual size rank n distance h b r d0 dl m =
    let (k, e, f, l, u) = next_poweroftwo-half size h b in
    let extra : ℕ = size - next_poweroftwo size / 2 in
    let nl : n < pow2 k = new_rank-lt extra (pow2 k) size rank n (omega arith) (omega arith) r m in
    let x : ℕ = bit_xor n distance in
    let xl : x < pow2 k = bit_xor-lt k n distance nl (omega arith) in
    let back : bit_xor x distance ≡ n = bit_xor-twice k n distance nl (omega arith) in
    (
      remote_of-lt extra (pow2 k) size x (omega arith) (omega arith) xl,
      λ same.
          let fixed : some x ≡ some n =
            sym (new_rank-remote_of extra x) ∙ ap (new_rank extra) same ∙ m in
          absurd (omega (arith, bit_xor_self k n distance nl (omega arith) (cc fixed))),
      new_rank-remote_of extra x,
      ap (remote_of extra) back ∙ remote_of-new_rank extra rank n m,
    )
