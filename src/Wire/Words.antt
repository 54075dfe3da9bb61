-- ===== src/Wire/Words.antt =====
-- What a word of the wire is: MAKE_PROTO and PROTO_GET_* of src/include/proto.h, between the three
-- fields and the 32 bits.
use lc.Base.{ℕ, ◌/◌, ◌^◌, ◌<◌, ◌≡◌, arith}
use lc.Base.Bits.{bit_and-mask}
use mathlib.Core.Equiv.{IsEquiv, iso_to_equiv}
use mathlib.Core.HLevel.{Σ_prop_path}
use native.Mathlib.Bridge.{le_prop}
use lc.Wire.{u32, make_proto, proto_get_proto, proto_get_rgid, proto_get_meta}
use lc.Wire.RoundTrip.{make_proto_sum, make_proto_fields}

abbrev Below : ℕ → Type 0
Below n = (k : ℕ) × (k < n)

Below-ext : (n : ℕ) (a b : Below n) → a.0 ≡ b.0 → a ≡ b
Below-ext n a b h = Σ_prop_path (λ k. le_prop) h

-- The protocol, the endpoint's number and the low half of the tag or meta word.
record Fields : Type 0 where
  proto : Below (2 ^ 2)
  rgid : Below (2 ^ 14)
  meta : Below (2 ^ 16)

abbrev Word : Type 0
Word = Below u32

make_proto-bound :
    (rgid proto meta : ℕ) → proto < 4 → rgid < 2 ^ 14 → make_proto rgid proto meta < u32
make_proto-bound rgid proto meta hp hr = omega (arith, make_proto_sum rgid proto meta hp hr)

-- The word that carries the fields.
abbrev word_of : Fields → Word
word_of f = (
  make_proto f.rgid.0 f.proto.0 f.meta.0,
  make_proto-bound f.rgid.0 f.proto.0 f.meta.0 f.proto.1 f.rgid.1,
)

proto-bound : (w : ℕ) → proto_get_proto w < 2 ^ 2
unfolding proto_get_proto
proto-bound w = omega (arith, bit_and-mask 2 w)

rgid-bound : (w : ℕ) → proto_get_rgid w < 2 ^ 14
unfolding proto_get_rgid
rgid-bound w = omega (arith, bit_and-mask 14 (w / 2 ^ 2))

meta-bound : (w : ℕ) → proto_get_meta w < 2 ^ 16
unfolding proto_get_meta
meta-bound w = omega (arith, bit_and-mask 16 (w / 2 ^ 16))

abbrev read_word : Word → Fields
read_word w = record {
  proto = (proto_get_proto w.0, proto-bound w.0);
  rgid = (proto_get_rgid w.0, rgid-bound w.0);
  meta = (proto_get_meta w.0, meta-bound w.0);
}

make_proto-read :
    (w : ℕ) → w < u32 → make_proto (proto_get_rgid w) (proto_get_proto w) (proto_get_meta w) ≡ w
unfolding proto_get_proto proto_get_rgid proto_get_meta
make_proto-read w h = omega (
  arith,
  bit_and-mask 2 w,
  bit_and-mask 14 (w / 2 ^ 2),
  bit_and-mask 16 (w / 2 ^ 16),
  make_proto_sum (proto_get_rgid w) (proto_get_proto w) (proto_get_meta w) (proto-bound w)
      (rgid-bound w),
)

read_back : (f : Fields) → read_word (word_of f) ≡ f
read_back f =
    let (p, r, m) = make_proto_fields f.rgid.0 f.proto.0 f.meta.0 f.proto.1 f.rgid.1 in
    λ i. record {
      proto = Below-ext (2 ^ 2) (read_word (word_of f)).proto f.proto p i;
      rgid = Below-ext (2 ^ 14) (read_word (word_of f)).rgid f.rgid r i;
      meta = Below-ext (2 ^ 16) (read_word (word_of f)).meta f.meta (omega (arith, m, f.meta.1)) i;
    }

-- The words of 32 bits and the triples of a protocol of two bits, an endpoint number of 14 bits and
-- 16 bits of tag or meta are one type: every word carries exactly one triple.
word_of-IsEquiv : IsEquiv word_of
word_of-IsEquiv =
    let fields_word = iso_to_equiv record {
      fun = word_of;
      inv = read_word;
      rinv = λ w. Below-ext u32 (word_of (read_word w)) w (make_proto-read w.0 w.1);
      linv = read_back;
    } in
    fields_word.1
