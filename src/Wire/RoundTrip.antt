-- ===== src/Wire/RoundTrip.antt =====
-- What the receiver reads out of the word that the sender made.
use lc.Base.{ℕ, ◌+◌, ◌*◌, ◌/◌, ◌%◌, ◌^◌, ◌<◌, ◌≡◌, arith}
use lc.Base.Bits.{bit_and-mask, bit_or_field}
use lc.Wire.{u32, make_proto, proto_get_proto, proto_get_rgid, proto_get_meta}

-- The fields do not overlap, so the word is a sum.
pub make_proto_sum :
    (rgid proto meta : ℕ)
    → proto < 4
    → rgid < 2 ^ 14
    → make_proto rgid proto meta ≡ proto + rgid * 4 + meta % 2 ^ 16 * 2 ^ 16
unfolding make_proto
make_proto_sum rgid proto meta hp hr = ground (
  arith,
  bit_or_field 2 rgid proto hp,
  bit_or_field 16 (meta % 2 ^ 16) (proto + rgid * 4) (omega arith),
  low,
  high,
)
  where
    low : rgid * 2 ^ 2 % u32 ≡ rgid * 4
    low = omega arith

    high : meta * 2 ^ 16 % u32 ≡ meta % 2 ^ 16 * 2 ^ 16
    high = omega arith

-- A protocol of two bits and an endpoint number of 14 bits are read back as they were sent; of the
-- tag or meta word exactly the low 16 bits arrive.
pub make_proto_fields :
    (rgid proto meta : ℕ)
    → proto < 4
    → rgid < 2 ^ 14
    → (proto_get_proto (make_proto rgid proto meta) ≡ proto)
      × (proto_get_rgid (make_proto rgid proto meta) ≡ rgid)
      × (proto_get_meta (make_proto rgid proto meta) ≡ meta % 2 ^ 16)
unfolding proto_get_proto proto_get_rgid proto_get_meta
make_proto_fields rgid proto meta hp hr =
    let w : ℕ = make_proto rgid proto meta in
    omega (
      arith,
      make_proto_sum rgid proto meta hp hr,
      bit_and-mask 2 w,
      bit_and-mask 14 (w / 2 ^ 2),
      bit_and-mask 16 (w / 2 ^ 16),
    )
