-- ===== src/Coll.antt =====
-- The collectives: src/coll.c and src/coll/. A collective writes its schedule into the request and
-- `lc_col_progress` works it off. `none` is a write past the end of the array `next`, or an
-- LC_SAFE that is never left. What `lc_send` answers, and what the sends and receives find of their
-- partners, are arguments.
mod Run
mod Plan
pub mod Schedule
pub mod Fits
pub mod Turns
pub mod Ends
pub mod Progress
pub mod Partner
pub mod Barrier
pub mod Value
pub mod Wait
unfoldable pub use Run.*
unfoldable pub use Plan.*
