-- ===== src/Tests/Messages.antt =====
-- Short and medium messages.
use lc.Base.{
  ℕ, ◌<◌, ◌≤◌, length, replicate, ◌≡◌, ◌≢◌, ◌⊎◌, refl, ap, ◌+◌, List, [], ◌∷◌, arith, Option, none,
  some,
}
use lc.Wire.{proto_data, proto_rts, make_proto}
use lc.Cq.{cq_init, Status, ok}
use lc.Cq.Refine.{cq_init-IsValid}
use lc.Engine.{sends, sendm, callback, buffer, overwrite, World, lci_ce_dispatch, lci_serve_recv}
use lc.Engine.Completion.{way, Dispatched, lci_ce_dispatch-Dispatched}
use lc.HashTable.{client, server, make_key, lc_hash_create, lc_hash_insert}
use lc.HashTable.Keys.{make_key_sum}
use lc.HashTable.Rendezvous.{pending-create}
use lc.Calls.{
  lc_sendl, lc_recv, lc_recvl, lc_recvm, with_handle, max_inline, packet_size, post_msg_size,
}
use lc.Calls.Order.{Meeting, Delivered, recv_then_packet, recv_first}
use lc.Calls.Arrival.{packet_then_recv, arrived_first}
use lc.Calls.Dynamic.{Listening, Queued, message-Queued}
use lc.Calls.Either.{answer, lc_recv-either}
use lc.Endpoint.{ar_dyn, ce_cq}
use lc.Tests.{build, world, env, endpoint}

-- The message under tag 9 from rank 1 in packet 100, and a receive with request 7.
meeting : Meeting build world 2 100 7 1 9 (7 ∷ 8 ∷ 9 ∷ [])
meeting = record {
  small_gid = omega arith;
  small_tag = omega arith;
  explicit = refl;
  signals = refl;
  not_glob = refl;
  own = refl;
  from = refl;
  filled = refl;
  apart = λ e. omega (arith, e);
  key = omega (arith, make_key_sum 1 9);
  no_client = pending-create (make_key 1 9) client;
  no_server = pending-create (make_key 1 9) server;
}

recv_first_example :
    Delivered world 2 100 7 500 (7 ∷ 8 ∷ 9 ∷ []) (recv_then_packet build world 2 100 7 500 8 1 9)
recv_first_example = recv_first build world 2 100 7 500 8 1 9 (7 ∷ 8 ∷ 9 ∷ []) meeting

arrived_first_example :
    Delivered world 2 100 7 500 (7 ∷ 8 ∷ 9 ∷ []) (packet_then_recv build world 2 100 7 500 8 1 9)
arrived_first_example = arrived_first build world 2 100 7 500 8 1 9 (7 ∷ 8 ∷ 9 ∷ []) meeting

lci_ce_dispatch-Dispatched_example :
    Dispatched (way build 68) build world 2 100 68 (lci_ce_dispatch build world 2 100 68)
lci_ce_dispatch-Dispatched_example =
    lci_ce_dispatch-Dispatched build world 2 100 68 cq_init-IsValid.0

abbrev long_memory : World
long_memory = record world { memory = λ _. replicate 200 5 }

abbrev Short : Option (Status × World) → Type 0
Short o =
    let word = make_proto 2 proto_data 9 in
    (200 ≤ max_inline
      → (w' : World) × (o ≡ some (ok, w'))
        × (w'.memory ≡ long_memory.memory)
        × (w'.calls ≡ sends 55 500 200 word ∷ callback 30 31 ∷ []))
    × (max_inline < 200
        → 200 ≤ post_msg_size
        → (w' : World) × (o ≡ some (ok, w'))
          × (w'.calls ≡ sendm 55 200 100 word ∷ callback 30 31 ∷ [])
          × ((bs : List ℕ) × ((w'.packets 100).payload ≡ buffer bs)
              × (bs ≡ overwrite 200 (replicate 200 5) [])
              × (length bs ≡ 200)))
    × (post_msg_size < 200 → 200 ≤ packet_size → o ≡ none)
    × (packet_size < 200
        → (w' : World) × (o ≡ some (ok, w'))
          × (lc_sendl env long_memory 500 200 1 9 2 30 31 ≡ (ok, w')))

-- The same packet at an endpoint with dynamic addressing and a completion queue.
abbrev dynamic : World
dynamic = record world { eps = λ _. record endpoint { cap = ar_dyn + ce_cq; cq = cq_init } }

listening : Listening build dynamic 2 100 116 9 (7 ∷ 8 ∷ 9 ∷ [])
listening = record {
  small_gid = omega arith;
  small_tag = omega arith;
  not_explicit = refl;
  dynamic = refl;
  not_signals = refl;
  queues = refl;
  valid = cq_init-IsValid.0;
  room = λ e. omega (arith, e, ap length cq_init-IsValid.1);
  own = refl;
  filled = refl;
}

message-Queued_example :
    Queued dynamic 2 100 116 9
      (7 ∷ 8 ∷ 9 ∷ [])
      (lci_serve_recv build dynamic 100 (make_proto 2 proto_data 9))
message-Queued_example = message-Queued build dynamic 2 100 116 9 (7 ∷ 8 ∷ 9 ∷ []) listening

-- The same packet waits in the table.
abbrev came : World
came = record world {
  eps = λ _. record endpoint { tbl = (lc_hash_insert lc_hash_create (make_key 1 9) 100 server).2 };
}

lc_recv-either_example :
    (lc_recv build env came 500 8 1 9 2 7 ≡ lc_recvl build env came 500 8 1 9 2 7)
      × (((answer build env came 500 8 1 9 2 7).0 ≢ 0)
          ⊎ ((came.packets (answer build env came 500 8 1 9 2 7).1).proto ≡ proto_rts))
    ⊎ (lc_recv build env came 500 8 1 9 2 7
        ≡ lc_recvm build (with_handle env 1 7 came) 500 8 1 9 2 7)
      × ((answer build env came 500 8 1 9 2 7).0 ≡ 0)
      × ((came.packets (answer build env came 500 8 1 9 2 7).1).proto ≢ proto_rts)
lc_recv-either_example = lc_recv-either build env came 500 8 1 9 2 7
