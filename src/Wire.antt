-- ===== src/Wire.antt =====
-- The word that travels with a message: MAKE_PROTO and PROTO_GET_* of src/include/proto.h.
pub mod RoundTrip
pub mod Words
use lc.Base.{ℕ, ◌+◌, ◌*◌, ◌/◌, ◌%◌, ◌^◌, bit_and, bit_or}

abbrev pub u32 : ℕ
u32 = 2 ^ 32

-- `lc_proto`
abbrev pub proto_data : ℕ
proto_data = 0

abbrev pub proto_rtr : ℕ
proto_rtr = 1

abbrev pub proto_rts : ℕ
proto_rts = 2

abbrev pub proto_long : ℕ
proto_long = 3

-- `meta` is an `int`, given by its 32 bits; the result is passed on as a `uint32_t`.
pub make_proto : ℕ → ℕ → ℕ → ℕ
make_proto rgid proto meta = bit_or (bit_or proto (rgid * 2 ^ 2 % u32)) (meta * 2 ^ 16 % u32)

pub proto_get_proto : ℕ → ℕ
proto_get_proto word = bit_and word 0b011

pub proto_get_rgid : ℕ → ℕ
proto_get_rgid word = bit_and (word / 2 ^ 2) 0b011111111111111

pub proto_get_meta : ℕ → ℕ
proto_get_meta word = bit_and (word / 2 ^ 16) 0xffff
