-- ===== src/Ibv/Serve.antt =====
-- The engine's calls of the server layer, made on the ibv server.
use lc.Base.{ℕ, List, [], ◌∷◌, Option, none, some}
use lc.Engine.{
  Call, sends, sendm, puts, putss, putm, putms, putl, putls, rma_reg, rma_dereg, rma_rtr, pool_put,
  pool_put_to, handler, callback, World, overwrite, bytes_of,
}
use lc.Ibv.{
  Server, Registrar, lc_server_rma_reg, lc_server_rma_dereg, lc_server_sends, lc_server_sendm,
  lc_server_puts, lc_server_putss, lc_server_putm, lc_server_putms, lc_server_putl, lc_server_putls,
  lc_server_rma_rtr,
}

-- Which function of the server a call is; a call of the pool or of the user is none of its.
unfoldable pub serve : Registrar → Server → Call → Server
serve m s (sends rep src size word) = lc_server_sends s rep src size word
serve m s (sendm rep size p word) = lc_server_sendm s rep size p word
serve m s (puts rep src base off key size) = lc_server_puts s rep src base off key size
serve m s (putss rep src base off key word size) = lc_server_putss s rep src base off key word size
serve m s (putm rep base off key size p) = lc_server_putm s rep base off key size p
serve m s (putms rep base off key size word p) = lc_server_putms s rep base off key size word p
serve m s (putl rep src base off key size p) = lc_server_putl m s rep src base off key size p
serve m s (putls rep src base off key size word p) =
    lc_server_putls m s rep src base off key size word p
serve m s (rma_reg mem src size) = (lc_server_rma_reg m s src size).1
serve m s (rma_dereg mem) = lc_server_rma_dereg s mem
serve m s (rma_rtr rep src addr key size sid p) = lc_server_rma_rtr m s rep src addr key size sid p
serve m s (pool_put p) = s
serve m s (pool_put_to p pid) = s
serve m s (handler fn req) = s
serve m s (callback cb ce) = s

unfoldable pub serve_all : Registrar → Server → List Call → Server
serve_all m s [] = s
serve_all m s (c ∷ cs) = serve_all m (serve m s c) cs

abbrev pub first_of : ℕ → Option (List ℕ) → List ℕ
first_of size none = []
first_of size (some bs) = overwrite size bs []

-- The bytes that the first message of the calls carries, of the memory or of the packet.
abbrev pub carried : World → List Call → List ℕ
carried w [] = []
carried w (sends rep src size word ∷ cs) = overwrite size (w.memory src) []
carried w (sendm rep size p word ∷ cs) = first_of size (bytes_of (w.packets p).payload)
carried w (_ ∷ cs) = carried w cs
