-- ===== src/HashTable/Keys.antt =====
-- The hash, the keys and the tags of include/lc/hashtable.h and `lc_make_key`.
use lc.Base.{ℕ, ◌+◌, ◌-◌, ◌*◌, ◌/◌, ◌%◌, ◌^◌, ◌<◌, ◌≡◌, ◌≢◌, arith, bit_and}
use lc.Base.Bits.{mask, bit_and-mask, bit_or_field_left, bit_or-zero_field, bit_or_halves}
use lc.HashTable.{
  u64, empty_tag, myhash, make_key, InsertType, client, server, type_bit, other, entry_tag,
  tbl_bit_size,
}

mask-lt : (x : ℕ) → bit_and x (mask tbl_bit_size) < 2 ^ tbl_bit_size
mask-lt x = omega (arith, bit_and-mask 16 x)

-- `myhash` is a bucket of the table of `1 << TBL_BIT_SIZE` rows, for every key.
pub myhash-lt : (key : ℕ) → myhash key < 2 ^ tbl_bit_size
unfolding myhash
myhash-lt key = mask-lt _

-- Bit 0 is the type, the rest is the key without its top bit.
pub entry_tag_sum :
    (key : ℕ) (type : InsertType) → entry_tag key type ≡ key % 2 ^ 63 * 2 + type_bit type
unfolding entry_tag
entry_tag_sum key client = omega (arith, bit_or-zero_field 64 (key * 2 % u64) (omega arith))
entry_tag_sum key server =
    omega (
      arith,
      bit_or_halves (key * 2 % u64) 1,
      bit_or-zero_field 63 (key * 2 % u64 / 2) (omega arith),
    )

-- The keys that the table can hold: 63 bits, and not all of them ones.
abbrev pub IsKey : ℕ → Type 0
IsKey key = key < 2 ^ 63 - 1

pub entry_tag-ne_empty : (key : ℕ) (type : InsertType) → IsKey key → entry_tag key type ≢ empty_tag
entry_tag-ne_empty key client h = omega (arith, entry_tag_sum key client)
entry_tag-ne_empty key server h = omega (arith, entry_tag_sum key server)

pub entry_tag_injective :
    (k j : ℕ) (type : InsertType) → IsKey k → IsKey j → entry_tag k type ≡ entry_tag j type → k ≡ j
entry_tag_injective k j type hk hj e = omega (arith, entry_tag_sum k type, entry_tag_sum j type)

pub entry_tag-ne_other : (k j : ℕ) (type : InsertType) → entry_tag k type ≢ entry_tag j (other type)
entry_tag-ne_other k j client = omega (arith, entry_tag_sum k client, entry_tag_sum j server)
entry_tag-ne_other k j server = omega (arith, entry_tag_sum k server, entry_tag_sum j client)

-- For a rank and a tag that are not negative the key is the two side by side.
pub make_key_sum :
    (rank tag : ℕ) → rank < 2 ^ 31 → tag < 2 ^ 31 → make_key rank tag ≡ rank * 2 ^ 32 + tag
unfolding make_key
make_key_sum rank tag hr ht = ground (arith, bit_or_field_left 32 31 rank tag hr (omega arith))

-- For ranks and tags that are not negative (below the largest rank), two pairs with one key are
-- the same pair, and the table can hold the key.
pub make_key_injective :
    (rank tag rank' tag' : ℕ)
    → rank < 2 ^ 31 - 1
    → tag < 2 ^ 31
    → rank' < 2 ^ 31 - 1
    → tag' < 2 ^ 31
    → IsKey (make_key rank tag)
      × (make_key rank tag ≡ make_key rank' tag' → (rank ≡ rank') × (tag ≡ tag'))
make_key_injective rank tag rank' tag' hr ht hr' ht' =
    omega (arith, make_key_sum rank tag (omega arith) ht, make_key_sum rank' tag' (omega arith) ht')
