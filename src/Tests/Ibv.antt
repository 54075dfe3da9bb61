-- ===== src/Tests/Ibv.antt =====
-- The ibv server of a process of three, with the queue pairs 10, 14 and 22.
use lc.Base.{
  ℕ, ◌+◌, ◌-◌, ◌*◌, ◌^◌, ◌≤◌, ◌<◌, ◌≡◌, ◌⊎◌, refl, List, [], ◌∷◌, Option, none, some, Bool, true,
  false, arith, get_or, replicate,
}
use lc.Engine.{World, lci_serve_imm, lci_serve_recv_rdma, lci_ce_dispatch, lci_ce_signal}
use lc.Psm2 as Psm2Server
use lc.Psm2.Progress.{Status2}
use lc.Wire.{make_proto, proto_long}
use lc.Ibv.{
  Server, Registrar, post_srq_recv, lc_server_putss, lc_server_rma_rtr, lc_server_sends, imm_rtr,
}
use lc.Ibv.Progress.{
  Wc, refill, put_back, on_recv, recv_put, recv_loop, send_loop, lc_server_progress, rank_of,
}
use lc.Ibv.Window.{posts, IsWindow}
use lc.Ibv.Runs.{Calls, rma_rtr, sends, Run, start, call, progress, Run-IsWindow, idle, idle-fills}
use lc.Ibv.Arrive as Arrive
use lc.Ibv.Arrive.{meaning, handle, Calls-handled, high_tag-misread}
use lc.Ibv.Alike.{Alike}
use lc.Ibv.Ranks.{init_ranks, marks, find_mod, fill}
use lc.Ibv.Ranks.Found.{init_ranks-finds}
use lc.Ibv.Signals.{signaled_to, sent_to, rounds, rounds-starve}
use lc.Tests.{build, world}
use lc.Tests.Servers.{server as psm_server}

abbrev pub registrar : Registrar
registrar = record { mem_of = λ buf size. 4000; lkey = λ mem. 5; rkey = λ mem. 6 }

abbrev pub server : Server
server = record {
  heap = 4096;
  heap_lkey = 9;
  max_inline = 128;
  qp = λ rank. rank + 50;
  qp2rank = [];
  qp2rank_mod = 1;
  recv_posted = 0;
  ninline = 0;
  deadlock = false;
  verbs = [];
}

server-IsWindow : IsWindow 0 server
server-IsWindow = record { counted = refl; bounded = omega arith; raised = λ up. omega arith }

-- A put's notice in packet 100, with the word of endpoint 2.
abbrev notice : Wc
notice = record { wr_id = 100; with_imm = true; qp_num = 10; byte_len = 0; imm_data = 11 }

abbrev state_of : Option (Bool × Server × World) → Server × World
state_of none = (server, world)
state_of (some (r, s, w)) = (s, w)

-- A packet is posted, a message is sent, and then the packet comes back.
abbrev posted : Option (Bool × Server × World)
posted = lc_server_progress build server world [] [] 100 0

abbrev sent : Server
sent = lc_server_sends (state_of posted).0 51 500 3 7

abbrev arrived : Option (Bool × Server × World)
arrived = lc_server_progress build sent (state_of posted).1 (notice ∷ []) [] 0 0

run : Run build registrar server 1 (state_of arrived).0
unfolding lc_server_progress recv_loop send_loop refill lc.Ibv.ibv_post_recv_ on_recv recv_put
    lci_serve_recv_rdma lci_ce_dispatch lci_ce_signal lc_server_sends
run =
    progress
      (call (progress start world (state_of posted).1 [] [] 100 0 true refl (omega arith) refl)
        (sends 51 500 3 7))
      (state_of posted).1 (state_of arrived).1 (notice ∷ []) [] 0 0 true refl (omega arith) refl

Run-IsWindow_example :
    ((state_of arrived).0.recv_posted + 1 ≡ posts (state_of arrived).0.verbs)
    × ((state_of arrived).0.recv_posted ≤ 64)
    × ((state_of arrived).0.deadlock ≡ true → (state_of arrived).0.recv_posted < 64)
Run-IsWindow_example = Run-IsWindow server-IsWindow run

-- With 62 receives posted and the flag up, two packets fill the window.
abbrev short : Server
short = record server {
  recv_posted = 62;
  deadlock = true;
  verbs = replicate 62 (post_srq_recv 1 (record { addr = 1; length = 1; lkey = 1 }));
}

short-IsWindow : IsWindow 0 short
short-IsWindow = record { counted = refl; bounded = omega arith; raised = λ up. omega arith }

idle-fills_example :
    (s' : Server) × (w' : World) × (idle build short world 0 (100 ∷ 200 ∷ []) ≡ some (s', w'))
    × (s'.recv_posted ≡ 64)
    × (s'.deadlock ≡ false)
idle-fills_example =
    idle-fills build short world 0 0 (100 ∷ 200 ∷ []) short-IsWindow
      (λ e. omega (arith, e), (λ e. omega (arith, e), tt)) refl

-- The end of a rendezvous for the packet at offset 164.
abbrev ended : Wc
ended = record { wr_id = 100; with_imm = true; qp_num = 10; byte_len = 0; imm_data = 164 + 2 ^ 31 }

abbrev answered :
    Calls registrar
      (Arrive.idle server)
      (lc_server_rma_rtr registrar (Arrive.idle server) 51 500 800 77 300 164 228)
answered = rma_rtr 51 500 800 77 300 164 228

noticed :
    Arrive.NoticeOf
      (lc_server_rma_rtr registrar (Arrive.idle server) 51 500 800 77 300 164 228).verbs
      ended
unfolding lc_server_rma_rtr
noticed = (refl, refl)

Calls-handled_example :
    on_recv build server world ended ≡ handle (meaning answered) build server world ended
Calls-handled_example =
    Calls-handled build registrar server answered server world ended noticed (omega arith)

-- A put by endpoint 2 with the tag 2^15 + 1.
abbrev misread : Wc
misread = record {
  wr_id = 100;
  with_imm = true;
  qp_num = 10;
  byte_len = 0;
  imm_data = make_proto 2 proto_long 0x8001;
}

misread_noticed :
    Arrive.NoticeOf
      (lc_server_putss
        (Arrive.idle server)
        51
        500
        1000
        64
        66
        (make_proto 2 proto_long 0x8001)
        3).verbs
      misread
unfolding lc_server_putss
misread_noticed = (refl, refl)

high_tag-misread_example :
    on_recv build server world misread
    ≡ put_back 100
        (lci_serve_imm build world (4096 + (proto_long + 2 * 4 + (0x8001 - 2 ^ 15) * 2 ^ 16)))
high_tag-misread_example =
    high_tag-misread build registrar server 51 500 1000 64 66 3 2 0x8001 server world misread
      (omega arith) (omega arith) (omega arith) misread_noticed

abbrev status : Status2
status = record {
  context = Psm2Server.received 100;
  tag = record { tag0 = 164; tag1 = 2 ^ 31; tag2 = 77 };
  length = 300;
  peer = 55;
}

-- The queue pairs collide modulo 3 and modulo 4.
abbrev pairs : List ℕ
pairs = 10 ∷ 14 ∷ 22 ∷ []

init_ranks-finds_example :
    (s' : Server) × (init_ranks 23 server pairs ≡ some s')
    × ((s'.qp2rank_mod ≡ 3) ⊎ (s'.qp2rank_mod ≤ 23))
    × ((n : ℕ) → n < 3 → rank_of s' (get_or pairs n 0) ≡ n)
init_ranks-finds_example =
    init_ranks-finds 23 23 server pairs (omega arith) (omega arith)
      (omega arith, (omega arith, (omega arith, tt)))
      (
        (λ e. omega (arith, e), (λ e. omega (arith, e), tt)),
        ((λ e. omega (arith, e), tt), (tt, tt)),
      )

table :
    init_ranks 23 server pairs
    ≡ some (record server { qp2rank_mod = 5; qp2rank = 0 ∷ 0 ∷ 2 ∷ 0 ∷ 1 ∷ [] })
unfolding init_ranks find_mod marks fill
table = refl

rounds-starve_example :
    (signaled_to 51 (rounds 5 server 51 52 500 3 7).verbs ≡ 0)
    × (sent_to 51 (rounds 5 server 51 52 500 3 7).verbs ≡ 0 + 64 * 5)
rounds-starve_example = rounds-starve 500 3 7 51 5 server 52 refl (λ e. omega (arith, e))
