-- ===== src/HashTable/Pending.antt =====
-- The table as what it promises: for each key and type a FIFO of values that wait for a partner.
use lc.Base.{
  ℕ, ◌≡◌, ◌≢◌, refl, ap, ◌∙◌, List, [], ◌∷◌, ◌++◌, none, some, Option-cases, inl, inr, arith, ◌==◌,
  if◌then◌else◌, Bool, true, false, ◌&&◌, append-nil,
}
use lc.HashTable.{
  Entry, Bucket, Table, InsertType, client, server, myhash, other, entry_tag, slots, insert_in,
  lc_hash_insert, update,
}
use lc.HashTable.Keys.{IsKey, entry_tag-ne_empty, entry_tag_injective, entry_tag-ne_other}
use lc.HashTable.Scan.{live, take_match}
use lc.HashTable.Match.{match_or_queue, match_or_queue-some, match_or_queue-none, insert_in_refines}

-- The values under a tag, oldest first.
abbrev pub vals : ℕ → List Entry → List ℕ
vals tag [] = []
vals tag (e ∷ es) = if e.tag == tag then e.val ∷ vals tag es else vals tag es

abbrev pub Queues : Type 0
Queues = ℕ → InsertType → List ℕ

-- What waits under a key and a type.
unfoldable pub pending : Table → Queues
pending t key type = vals (entry_tag key type) (live (slots (t (myhash key)).rows))

abbrev pub same_type : InsertType → InsertType → Bool
same_type client client = true
same_type server server = true
same_type client server = false
same_type server client = false

abbrev pub put : Queues → ℕ → InsertType → List ℕ → Queues
put q key type l k ty = if (key == k) && same_type type ty then l else q k ty

-- Take the oldest value that waits on the other side, or wait behind the own side's.
unfoldable pub rendezvous : Queues → ℕ → ℕ → InsertType → ℕ × ℕ × Queues
rendezvous q key value type = elim (q key (other type)) [
  | v ∷ rest ↦ (0, v, put q key (other type) rest)
  | [] ↦ (1, value, put q key type (q key type ++ value ∷ []))
]

vals-append : (tag : ℕ) (es fs : List Entry) → vals tag (es ++ fs) ≡ vals tag es ++ vals tag fs
vals-append tag [] fs = refl
vals-append tag (e ∷ es) fs = ground (arith, vals-append tag es fs)

vals-take_none : (tag : ℕ) (es : List Entry) → take_match tag es ≡ none → vals tag es ≡ []
unfolding take_match
vals-take_none tag [] h = refl
vals-take_none tag (e ∷ es) h = ground (arith, vals-take_none tag es)

-- Taking out the first entry with a tag takes the first value there, and no other.
vals-take_self :
    (tag : ℕ) (es rest : List Entry) (v : ℕ)
    → take_match tag es ≡ some (v, rest)
    → vals tag es ≡ v ∷ vals tag rest
unfolding take_match
vals-take_self tag [] rest v h = cc
vals-take_self tag (e ∷ es) rest v h = elim (Option-cases (take_match tag es)) [
  | inl no_more ↦ ground (arith, no_more)
  | inr ((w, r), more) ↦ ground (arith, more, vals-take_self tag es r w more)
]

vals-take_ne :
    (tag t : ℕ) (es rest : List Entry) (v : ℕ)
    → t ≢ tag
    → take_match tag es ≡ some (v, rest)
    → vals t es ≡ vals t rest
unfolding take_match
vals-take_ne tag t [] rest v ne h = cc
vals-take_ne tag t (e ∷ es) rest v ne h = elim (Option-cases (take_match tag es)) [
  | inl no_more ↦ ground (arith, no_more)
  | inr ((w, r), more) ↦ ground (arith, more, vals-take_ne tag t es r w ne more)
]

-- Tags are compared as keys and types are.
tag_test :
    (j k : ℕ) (t u : InsertType)
    → IsKey j
    → IsKey k
    → (entry_tag j t == entry_tag k u) ≡ (j == k) && same_type t u
tag_test j k client client hj hk = ground (arith, entry_tag_injective j k client hj hk)
tag_test j k server server hj hk = ground (arith, entry_tag_injective j k server hj hk)
tag_test j k client server hj hk = ground (arith, entry_tag-ne_other j k client)
tag_test j k server client hj hk = ground (arith, entry_tag-ne_other j k server)

pending-update :
    (t : Table) (key k : ℕ) (u : InsertType) (b : Bucket)
    → pending (update t (myhash key) b) k u ≡ (
        if myhash key == myhash k
        then vals (entry_tag k u) (live (slots b.rows))
        else pending t k u)
unfolding pending
pending-update t key k u b = ground arith

module _ (t : Table) (key value : ℕ) (type : InsertType) (valid : IsKey key) where
  abbrev bucket : Bucket
  bucket = t (myhash key)

  abbrev used : List Entry
  used = live (slots bucket.rows)

  abbrev after : ℕ × ℕ × Bucket
  after = insert_in bucket key value type

  inserted :
      (after.0, after.1, live (slots after.2.rows))
      ≡ match_or_queue used (entry_tag key (other type)) (entry_tag key type) value
  inserted =
      insert_in_refines bucket key value type (entry_tag-ne_empty key (other type) valid)
        (entry_tag-ne_empty key type valid)

  -- The queues after the call, in either case of what the bucket had.
  Refined : ℕ × ℕ × Queues → Type 0
  Refined (ret, v, q) =
      (after.0 ≡ ret)
      × (after.1 ≡ v)
      × ((k : ℕ) (u : InsertType) → IsKey k → pending (update t (myhash key) after.2) k u ≡ q k u)

  refine_none :
      take_match (entry_tag key (other type)) used ≡ none
      → Refined (1, value, put (pending t) key type (pending t key type ++ value ∷ []))
  unfolding Refined pending
  refine_none m =
      let tag = entry_tag key type in
      let e = inserted ∙ match_or_queue-none used (entry_tag key (other type)) tag value m in
      let mine : Entry = record { tag = tag; val = value } in
      let held : live (slots after.2.rows) ≡ used ++ mine ∷ [] = ap (λ r. r.2) e in
      (
        ap (λ r. r.0) e,
        ap (λ r. r.1) e,
        λ k u hk. ground (
          arith,
          pending-update t key k u after.2,
          held,
          ap (vals (entry_tag k u)) held,
          vals-append (entry_tag k u) used (mine ∷ []),
          append-nil (vals (entry_tag k u) used),
          tag_test key k type u valid hk,
        ),
      )

  refine_some :
      (v : ℕ) (rest : List Entry)
      → take_match (entry_tag key (other type)) used ≡ some (v, rest)
      → Refined (0, v, put (pending t) key (other type) (vals (entry_tag key (other type)) rest))
  unfolding Refined pending
  refine_some v rest m =
      let cmp = entry_tag key (other type) in
      let e = inserted ∙ match_or_queue-some used cmp (entry_tag key type) value m in
      let held : live (slots after.2.rows) ≡ rest = ap (λ r. r.2) e in
      (
        ap (λ r. r.0) e,
        ap (λ r. r.1) e,
        λ k u hk. ground (
          arith,
          pending-update t key k u after.2,
          ap (vals (entry_tag k u)) held,
          vals-take_ne cmp (entry_tag k u) used rest v,
          m,
          tag_test key k (other type) u valid hk,
        ),
      )

  -- For a key that the table can hold, one call of `lc_hash_insert` returns what the rendezvous of
  -- queues returns, and leaves the table with the queues of the rendezvous: it takes the oldest
  -- value that waits on the other side of that very key, or else waits last on its own side, and
  -- no other key's queues change.
  pub lc_hash_insert_refines :
      let (ret, v, t') = lc_hash_insert t key value type in
      let (ret', v', q) = rendezvous (pending t) key value type in
      (ret ≡ ret') × (v ≡ v') × ((k : ℕ) (u : InsertType) → IsKey k → pending t' k u ≡ q k u)
  unfolding lc_hash_insert rendezvous Refined
  lc_hash_insert_refines = elim (Option-cases (take_match (entry_tag key (other type)) used)) [
    | inl no_match ↦ rw (queue_none no_match, rendezvous) (refine_none no_match)
    | inr ((v, rest), match) ↦ rw (queue_some v rest match, rendezvous) (refine_some v rest match)
  ]
    where
      queue_none :
          take_match (entry_tag key (other type)) used ≡ none → pending t key (other type) ≡ []
      queue_none m = unfold pending in vals-take_none (entry_tag key (other type)) used m

      queue_some :
          (v : ℕ) (rest : List Entry)
          → take_match (entry_tag key (other type)) used ≡ some (v, rest)
          → pending t key (other type) ≡ v ∷ vals (entry_tag key (other type)) rest
      queue_some v rest m =
          unfold pending in vals-take_self (entry_tag key (other type)) used rest v m
