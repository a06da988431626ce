-- ===== src/Relay.antt =====
-- relay.rs and the relay half of table.rs.
pub mod State
pub mod Net
pub mod WebSocket
pub mod HostCall
pub mod Persist
pub mod Wire
pub mod Respond
pub mod Approval
pub mod Step
pub mod Invariant
pub mod Preserve
pub mod Safety
pub mod Mark
pub mod Drain
pub mod Order
pub mod Handles
pub mod Fresh
pub mod Reader
pub mod HttpDelivery
pub mod HostDelivery
pub mod PersistDelivery
pub mod Decision
pub mod Request
pub mod Narrow
