-- ===== src/Session.antt =====
-- src/server/client_session.{hpp,cpp}: the per-client state machine AUTH → HEADER → DATA. `State`
-- has the data, the other children one group of methods or of theorems each.
pub mod State
pub mod Buffer
pub mod Login
pub mod Push
pub mod Delivery
pub mod Admission
pub mod Header
pub mod FileStart
pub mod Upload
pub mod Machine
pub mod Invariant
mod Tests
