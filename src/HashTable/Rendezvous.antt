-- ===== src/HashTable/Rendezvous.antt =====
-- Two calls of `lc_hash_insert` from the two sides of one key.
use lc.Base.{ℕ, ◌≡◌, refl, List, [], ◌∷◌, ◌++◌, arith}
use lc.HashTable.{Table, InsertType, client, server, other, lc_hash_create, lc_hash_insert}
use lc.HashTable.Keys.{IsKey}
use lc.HashTable.Pending.{pending, put, rendezvous, lc_hash_insert_refines}

-- A new table holds nothing.
pub pending-create : (key : ℕ) (type : InsertType) → pending lc_hash_create key type ≡ []
unfolding pending lc_hash_create
pending-create key type = refl

module _ (t : Table) (key value : ℕ) (type : InsertType) (valid : IsKey key) where
  -- With no partner the call returns 1, keeps `*value`, and the value waits last.
  pub insert_waits :
      pending t key (other type) ≡ []
      → let (ret, v, t') = lc_hash_insert t key value type in
        (ret ≡ 1)
        × (v ≡ value)
        × ((k : ℕ) (u : InsertType)
            → IsKey k
            → pending t' k u ≡ put (pending t) key type (pending t key type ++ value ∷ []) k u)
  unfolding rendezvous
  insert_waits none_there =
      rw (none_there, rendezvous) at (lc_hash_insert_refines t key value type valid)

  -- With a partner the call returns 0 and the partner, which no longer waits.
  pub insert_matches :
      (x : ℕ) (rest : List ℕ)
      → pending t key (other type) ≡ x ∷ rest
      → let (ret, v, t') = lc_hash_insert t key value type in
        (ret ≡ 0)
        × (v ≡ x)
        × ((k : ℕ) (u : InsertType)
            → IsKey k
            → pending t' k u ≡ put (pending t) key (other type) rest k u)
  unfolding rendezvous
  insert_matches x rest there =
      rw (there, rendezvous) at (lc_hash_insert_refines t key value type valid)

-- On a key where nothing waits, the first of the two sides waits and the second gets its value,
-- whichever side is first; afterwards every queue is as before.
pub insert_twice :
    (t : Table) (key v v' : ℕ) (type : InsertType)
    → IsKey key
    → pending t key client ≡ []
    → pending t key server ≡ []
    → let (ret, w, t1) = lc_hash_insert t key v type in
      let (ret', w', t2) = lc_hash_insert t1 key v' (other type) in
      (ret ≡ 1)
      × (w ≡ v)
      × (ret' ≡ 0)
      × (w' ≡ v)
      × ((k : ℕ) (u : InsertType) → IsKey k → pending t2 k u ≡ pending t k u)
insert_twice t key v v' client valid hc hs =
    let (r, e, q) = insert_waits t key v client valid hs in
    let t1 : Table = (lc_hash_insert t key v client).2 in
    let waits : pending t1 key client ≡ v ∷ [] = ground (arith, q key client valid) in
    let (r', e', q') = insert_matches t1 key v' server valid v [] waits in
    (r, e, r', e', λ k u hk. ground (arith, q' k u hk, q k u hk))
insert_twice t key v v' server valid hc hs =
    let (r, e, q) = insert_waits t key v server valid hc in
    let t1 : Table = (lc_hash_insert t key v server).2 in
    let waits : pending t1 key server ≡ v ∷ [] = ground (arith, q key server valid) in
    let (r', e', q') = insert_matches t1 key v' client valid v [] waits in
    (r, e, r', e', λ k u hk. ground (arith, q' k u hk, q k u hk))
