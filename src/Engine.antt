-- ===== src/Engine.antt =====
-- src/include/proto.h and src/include/packet.h: the protocol engine. The state is what the engine
-- reads and writes, by address; the calls it makes of the server layer, of the packet pool and of
-- the user are recorded in order. `none` is a call of `exit`, or a read of a member of the
-- packet's union that was not written.
mod State
mod Handle
pub mod Rules
pub mod Completion
unfoldable pub use State.*
unfoldable pub use Handle.*
