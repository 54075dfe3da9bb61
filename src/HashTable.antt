-- ===== src/HashTable.antt =====
-- include/lc/hashtable.h and src/hashtable.c: the table in which a receive (CLIENT) and an arrived
-- packet (SERVER) with the same key find each other. The slots of a bucket's rows are numbered
-- from 0 along the chain, three to a row; a value is a pointer.
pub mod Scan
pub mod Keys
pub mod Match
pub mod Pending
pub mod Rendezvous
use lc.Base.{
  ℕ, zero, suc, ◌+◌, ◌-◌, ◌*◌, ◌/◌, ◌%◌, ◌^◌, List, [], ◌∷◌, ◌++◌, Option, none, some, ◌==◌, ltb,
  if◌then◌else◌, bit_and, bit_or, bit_xor,
}
use lc.Base.Bits.{mask}
use lc.Lock.{unlocked}

abbrev pub u64 : ℕ
u64 = 2 ^ 64

-- `EMPTY`, that is `(uint64_t)-1`.
abbrev pub empty_tag : ℕ
empty_tag = u64 - 1

abbrev pub tbl_bit_size : ℕ
tbl_bit_size = 16

-- The FNV constants.
abbrev pub prime : ℕ
prime = 0x0100_0193

abbrev pub seed : ℕ
seed = 0x811C_9DC5

-- One line of `myhash`, on the byte of `k` at `shift`.
abbrev pub fnv_step : ℕ → ℕ → ℕ → ℕ
fnv_step k shift hash = bit_xor (bit_and (k / 2 ^ shift) 0xff) hash * prime % 2 ^ 32

pub myhash : ℕ → ℕ
myhash k =
    let h0 = fnv_step k 0 seed in
    let h1 = fnv_step k 8 h0 in
    let h2 = fnv_step k 16 h1 in
    let h3 = fnv_step k 24 h2 in
    let h4 = fnv_step k 32 h3 in
    let h5 = fnv_step k 40 h4 in
    let h6 = fnv_step k 48 h5 in
    let h7 = fnv_step k 56 h6 in bit_and (bit_xor (h7 / 2 ^ tbl_bit_size) h7) (mask tbl_bit_size)

-- `(uint64_t)` of an `int`, given by its 32 bits: the sign is extended.
abbrev pub sign_extend : ℕ → ℕ
sign_extend x = if ltb x (2 ^ 31) then x else x + (u64 - 2 ^ 32)

-- `lc_make_key` of include/lc/macro.h.
pub make_key : ℕ → ℕ → ℕ
make_key rank tag = bit_or (sign_extend rank * 2 ^ 32 % u64) (sign_extend tag)

-- `enum insert_type`, and the number that stands for it.
pub data InsertType : Type 0 where
  client server : InsertType

abbrev pub type_bit : InsertType → ℕ
type_bit client = 0
type_bit server = 1

abbrev pub other : InsertType → InsertType
other client = server
other server = client

-- `(key << 1) | type`; `cmp_key` is the tag of the other type, `1 - type`.
pub entry_tag : ℕ → InsertType → ℕ
entry_tag key type = bit_or (key * 2 % u64) (type_bit type)

pub record Entry : Type 0 where
  pub tag : ℕ
  pub val : ℕ

-- The slots of one row of `TBL_WIDTH` entries; the first, `control`, holds the lock and the link.
pub record Row : Type 0 where
  pub first : Entry
  pub second : Entry
  pub third : Entry

-- The chain that starts at a bucket: the rows along `control.next`, and the master's lock.
pub record Bucket : Type 0 where
  pub lock : ℕ
  pub rows : List Row

abbrev pub empty_entry : Entry
empty_entry = record { tag = empty_tag; val = 0 }

abbrev pub empty_row : Row
empty_row = record { first = empty_entry; second = empty_entry; third = empty_entry }

-- A bucket of `create_table(num_rows)`.
abbrev pub create_row : Bucket
create_row = record { lock = unlocked; rows = empty_row ∷ [] }

-- The buckets by their index.
abbrev pub Table : Type 0
Table = ℕ → Bucket

pub lc_hash_create : Table
lc_hash_create _ = create_row

abbrev pub slots : List Row → List Entry
slots [] = []
slots (r ∷ rs) = r.first ∷ r.second ∷ r.third ∷ slots rs

-- The assignment to the entry at a slot's number.
abbrev pub write : List Row → ℕ → Entry → List Row
write [] i e = []
write (r ∷ rs) zero e = record r { first = e } ∷ rs
write (r ∷ rs) (suc zero) e = record r { second = e } ∷ rs
write (r ∷ rs) (suc (suc zero)) e = record r { third = e } ∷ rs
write (r ∷ rs) (suc (suc (suc i))) e = r ∷ write rs i e

-- How the loop of `lc_hash_insert` ends: at a slot with the wanted tag, or after the last row with
-- the value of `empty_hentry`.
pub data Found : Type 0 where
  hit : ℕ → ℕ → Found
  miss : Option ℕ → Found

-- `empty_hentry` after a slot that does not match.
abbrev pub next_empty : ℕ → ℕ → Option ℕ → Option ℕ
next_empty tag i none = if tag == empty_tag then some i else none
next_empty tag i (some j) = if tag == empty_tag then some j else none

-- The loop, from slot `i` on.
pub scan : ℕ → List Entry → ℕ → Option ℕ → Found
scan cmp_key [] i empty = miss empty
scan cmp_key (e ∷ es) i empty =
    let rest = scan cmp_key es (i + 1) (next_empty e.tag i empty) in
    if e.tag == cmp_key then hit i e.val else rest

-- What is done in the bucket once the loop has ended.
abbrev pub settle : Bucket → ℕ → ℕ → Found → ℕ × ℕ × Bucket
settle b tag value (hit i v) =
    (0, v, record { lock = unlocked; rows = write b.rows i (record { tag = empty_tag; val = v }) })
settle b tag value (miss (some i)) = (
  1,
  value,
  record { lock = unlocked; rows = write b.rows i (record { tag = tag; val = value }) },
)
settle b tag value (miss none) = (
  1,
  value,
  record {
    lock = unlocked;
    rows = b.rows ++ record empty_row { first = record { tag = tag; val = value } } ∷ [];
  },
)

-- `lc_hash_insert` in the bucket of the key: what is returned, `*value` after it, and the bucket.
pub insert_in : Bucket → ℕ → ℕ → InsertType → ℕ × ℕ × Bucket
insert_in b key value type =
    settle b (entry_tag key type) value (scan (entry_tag key (other type)) (slots b.rows) 0 none)

abbrev pub update : Table → ℕ → Bucket → Table
update t i b j = if i == j then b else t j

pub lc_hash_insert : Table → ℕ → ℕ → InsertType → ℕ × ℕ × Table
lc_hash_insert t key value type =
    let (ret, value', b) = insert_in (t (myhash key)) key value type in
    (ret, value', update t (myhash key) b)
