-- ===== src/Tests/Queues.antt =====
-- The circular queues, the word of a message and the endpoints.
use lc.Base.{
  ℕ, ◌%◌, ◌^◌, ◌≡◌, List, [], ◌∷◌, arith, set, replicate, length-set, length-replicate, ◌∙◌,
}
use lc.Dequeue.{Dequeue, max_size, dq_pop_top, dq_pop_bot}
use lc.Dequeue.Refine.{
  Op, put, take_top, take_bot, run, run_list, run_refines, Agrees, push, pop_top, pop_bot,
  dq_push_top_refines, dq_pop_top_refines, dq_pop_bot_refines,
}
use lc.Dequeue.Refine
use lc.Cq.{CompQueue, cq_max_size, cq_push}
use lc.Cq.Refine.{Pushed, cq_push-Pushed, lc_cq_pop_lem}
use lc.Cq.Refine as CqRefine
use lc.Wire.{make_proto, proto_get_proto, proto_get_rgid, proto_get_meta}
use lc.Wire.RoundTrip.{make_proto_fields}
use lc.Endpoint.{Opt, Endpoints}
use lc.Tests.{endpoint}

-- Two packets, one in the last place of the array and one in the first.
abbrev around : Dequeue
around = record {
  cache = 0;
  top = 1;
  bot = 4095;
  spinlock = 0;
  container = set (set (replicate max_size 0) 4095 64) 0 128;
}

around-IsValid : Refine.IsValid around
around-IsValid = record {
  sized =
      length-set {A = ℕ} (set (replicate max_size 0) 4095 64) 0 128
      ∙ length-set {A = ℕ} (replicate max_size 0) 4095 64
      ∙ length-replicate {A = ℕ} max_size 0;
  top_in = omega arith;
  bot_in = omega arith;
}

abbrev script : List Op
script = put 192 ∷ take_bot ∷ take_top ∷ take_top ∷ take_top ∷ []

run_refines_example : run around script ≡ run_list (Refine.contents around) script
run_refines_example = run_refines script around-IsValid

dq_pop_top_refines_example :
    Refine.IsValid (dq_pop_top around).1
    × (((dq_pop_top around).0, Refine.contents (dq_pop_top around).1)
        ≡ pop_top (Refine.contents around))
dq_pop_top_refines_example = dq_pop_top_refines around-IsValid

dq_pop_bot_refines_example :
    Refine.IsValid (dq_pop_bot around).1
    × (((dq_pop_bot around).0, Refine.contents (dq_pop_bot around).1)
        ≡ pop_bot (Refine.contents around))
dq_pop_bot_refines_example = dq_pop_bot_refines around-IsValid

-- A completion queue with one request across the end.
abbrev completed : CompQueue
completed = record {
  top = 0;
  bot = 2047;
  spinlock = 0;
  container = set (replicate cq_max_size 0) 2047 7;
}

completed-IsValid : CqRefine.IsValid completed
completed-IsValid = record {
  sized =
      length-set {A = ℕ} (replicate cq_max_size 0) 2047 7 ∙ length-replicate {A = ℕ} cq_max_size 0;
  top_in = omega arith;
  bot_in = omega arith;
}

cq_push-Pushed_example : Pushed (CqRefine.contents completed) 8 (cq_push completed 8)
cq_push-Pushed_example = cq_push-Pushed 8 completed-IsValid

make_proto_fields_example :
    (proto_get_proto (make_proto 5 2 70000) ≡ 2)
    × (proto_get_rgid (make_proto 5 2 70000) ≡ 5)
    × (proto_get_meta (make_proto 5 2 70000) ≡ 70000 % 2 ^ 16)
make_proto_fields_example = make_proto_fields 5 2 70000 (omega arith) (omega arith)

abbrev endpoints : Endpoints
endpoints = record { lcg_ep = λ _. endpoint; lcg_nep = 3 }

-- Explicit addressing, completion queue.
abbrev exp_cq : Opt
exp_cq = record { dev = 1; addr = 4; ce = 64; alloc = λ size. (0, 0); handler = 0; glob = 1 }
