-- ===== src/Ibv/Alike.antt =====
-- The two servers side by side: an arrival of src/include/server/server_psm2.h and one of
-- server_ibv.h that bring the same message.
use lc.Base.{ℕ, ◌+◌, ◌^◌, ◌<◌, ◌≡◌, Option, none, some, true, false}
use lc.Engine.{World}
use lc.Psm2 as Psm2Server
use lc.Psm2.Progress.{Kind, message, put, put_sid, size_ahead, answer, long_sid, long, Status2}
use lc.Psm2.Progress as Psm2Progress
use lc.Ibv.{Server}
use lc.Ibv.Progress.{Wc, rank_of, put_back}

-- The status and the completion bring the same, by the kind that the psm2 server reads from the
-- tag: a message with its sender, size and word, the word of bytes that are in place, or the offset
-- of a packet whose rendezvous has ended.
abbrev pub Alike : Kind → Server → Status2 → Wc → Type 0
Alike message s st wc =
    (wc.with_imm ≡ false)
    × (wc.imm_data ≡ st.tag.tag0)
    × (rank_of s wc.qp_num ≡ st.tag.tag1)
    × (s.qp (rank_of s wc.qp_num) ≡ st.peer)
    × (wc.byte_len ≡ st.length)
Alike long_sid s st wc = (wc.with_imm ≡ true) × (wc.imm_data ≡ st.tag.tag1) × (st.tag.tag1 < 2 ^ 31)
Alike answer s st wc =
    (wc.with_imm ≡ true) × (wc.imm_data ≡ st.tag.tag0 + 2 ^ 31) × (st.tag.tag0 < 2 ^ 31)
Alike put s st wc = ⊥
Alike put_sid s st wc = ⊥
Alike size_ahead s st wc = ⊥
Alike long s st wc = ⊥

-- What the engine's state is after a branch of the psm2 server.
abbrev pub world_of : Option (Psm2Server.Server × World) → Option World
world_of none = none
world_of (some (s, w)) = some w

-- The ibv server gives back the packet that the end of a rendezvous came with.
abbrev pub then_back : Kind → ℕ → Option World → Option World
then_back answer p o = put_back p o
then_back message p o = o
then_back long_sid p o = o
then_back put p o = o
then_back put_sid p o = o
then_back size_ahead p o = o
then_back long p o = o
