-- ===== src/Soe.antt =====
-- xrmIocApp/src/acq400_SOE.{h,cpp} and acq400_SOE_Strategy.cpp: sample on event.
pub mod Strategy
pub mod Cycle
pub mod Table
pub mod Selection
pub mod Lookup
pub mod Timing
pub mod Retry
pub mod Null
pub mod Edit
pub mod HoldColumns
pub mod Round
pub mod Start
pub mod Examples
