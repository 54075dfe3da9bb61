-- ===== src/HashTable/Match.antt =====
-- `lc_hash_insert` in one bucket, against the list of the entries in use.
use lc.Base.{ℕ, ◌≡◌, ◌≢◌, refl, List, [], ◌∷◌, ◌++◌, none, some, arith}
use lc.HashTable.{
  Entry, Bucket, InsertType, empty_tag, empty_row, other, entry_tag, slots, Found, hit, miss, scan,
  settle, insert_in,
}
use lc.HashTable.Scan.{
  live, take_match, slots-write, slots-append, live-append, scan_hit, scan_miss,
}

-- Take out the first entry with the wanted tag, or queue one's own behind the others.
pub match_or_queue : List Entry → ℕ → ℕ → ℕ → ℕ × ℕ × List Entry
match_or_queue l cmp tag value = elim (take_match cmp l) [
  | some (v, rest) ↦ (0, v, rest)
  | none ↦ (1, value, l ++ record { tag = tag; val = value } ∷ [])
]

pub match_or_queue-some :
    (l : List Entry) {rest : List Entry} {v : ℕ} (cmp tag value : ℕ)
    → take_match cmp l ≡ some (v, rest)
    → match_or_queue l cmp tag value ≡ (0, v, rest)
unfolding match_or_queue
match_or_queue-some l cmp tag value e = rw (e, match_or_queue)

pub match_or_queue-none :
    (l : List Entry) (cmp tag value : ℕ)
    → take_match cmp l ≡ none
    → match_or_queue l cmp tag value ≡ (1, value, l ++ record { tag = tag; val = value } ∷ [])
unfolding match_or_queue
match_or_queue-none l cmp tag value e = rw (e, match_or_queue)

live-one :
    (tag value : ℕ)
    → tag ≢ empty_tag
    → live (slots (record empty_row { first = record { tag = tag; val = value } } ∷ []))
      ≡ record { tag = tag; val = value } ∷ []
live-one tag value nt = ground arith

settle_refines :
    (b : Bucket) (cmp tag value : ℕ) (found : Found)
    → cmp ≢ empty_tag
    → tag ≢ empty_tag
    → scan cmp (slots b.rows) 0 none ≡ found
    → let (ret, v, b') = settle b tag value found in
      (ret, v, live (slots b'.rows)) ≡ match_or_queue (live (slots b.rows)) cmp tag value
settle_refines b cmp tag value (hit j v) nc nt e =
    let (k, at, m) = scan_hit cmp (slots b.rows) 0 none j v nc e in
    let i : j ≡ k = omega arith in
    rw (match_or_queue-some (live (slots b.rows)) cmp tag value m, slots-write, i)
settle_refines b cmp tag value (miss (some i)) nc nt e =
    let mine : Entry = record { tag = tag; val = value } in
    let (m, free) = scan_miss mine nt cmp [] (slots b.rows) none (some i) tt e in
    rw (match_or_queue-none (live (slots b.rows)) cmp tag value m, slots-write, free.1)
settle_refines b cmp tag value (miss none) nc nt e =
    let mine : Entry = record { tag = tag; val = value } in
    let (m, free) = scan_miss mine nt cmp [] (slots b.rows) none none tt e in
    rw (
      match_or_queue-none (live (slots b.rows)) cmp tag value m,
      slots-append,
      live-append,
      live-one tag value nt,
    )

-- One call matches the oldest entry of the other type under the key, and else queues its own
-- behind all that are in use, whatever slots they are in.
pub insert_in_refines :
    (b : Bucket) (key value : ℕ) (type : InsertType)
    → entry_tag key (other type) ≢ empty_tag
    → entry_tag key type ≢ empty_tag
    → let (ret, v, b') = insert_in b key value type in
      (ret, v, live (slots b'.rows))
      ≡ match_or_queue (live (slots b.rows)) (entry_tag key (other type)) (entry_tag key type) value
unfolding insert_in
insert_in_refines b key value type nc nt =
    settle_refines b (entry_tag key (other type)) (entry_tag key type) value
      (scan (entry_tag key (other type)) (slots b.rows) 0 none) nc nt refl
