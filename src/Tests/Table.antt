-- ===== src/Tests/Table.antt =====
-- The table: key 1 · 2^32 + 9, a receive 7 and a packet 100.
use lc.Base.{ℕ, ◌≡◌, ◌^◌, ◌<◌, arith}
use lc.HashTable.{
  Table, InsertType, client, server, make_key, lc_hash_create, lc_hash_insert, myhash, tbl_bit_size,
}
use lc.HashTable.Keys.{IsKey, make_key_sum, myhash-lt}
use lc.HashTable.Pending.{pending, rendezvous, lc_hash_insert_refines}
use lc.HashTable.Rendezvous.{pending-create, insert_twice}

abbrev key : ℕ
key = make_key 1 9

key-IsKey : IsKey key
key-IsKey = omega (arith, make_key_sum 1 9)

-- A packet waits.
abbrev table : Table
table = (lc_hash_insert lc_hash_create key 100 server).2

lc_hash_insert_refines_example :
    let (ret, v, t') = lc_hash_insert table key 7 client in
    let (ret', v', q) = rendezvous (pending table) key 7 client in
    (ret ≡ ret') × (v ≡ v') × ((k : ℕ) (u : InsertType) → IsKey k → pending t' k u ≡ q k u)
lc_hash_insert_refines_example = lc_hash_insert_refines table key 7 client key-IsKey

insert_twice_example :
    let (ret, w, t1) = lc_hash_insert lc_hash_create key 100 server in
    let (ret', w', t2) = lc_hash_insert t1 key 7 client in
    (ret ≡ 1)
    × (w ≡ 100)
    × (ret' ≡ 0)
    × (w' ≡ 100)
    × ((k : ℕ) (u : InsertType) → IsKey k → pending t2 k u ≡ pending lc_hash_create k u)
insert_twice_example =
    insert_twice lc_hash_create key 100 7 server key-IsKey (pending-create key client)
      (pending-create key server)

abbrev one : ℕ
one = 1

abbrev nine : ℕ
nine = 9

myhash-lt_example : myhash 4294967305 < 2 ^ tbl_bit_size
myhash-lt_example = myhash-lt 4294967305
