-- ===== src/Tests.antt =====
-- The theorems at concrete inputs, and the state that they share.
pub mod Wire
pub mod Queues
pub mod Groups
pub mod Data
pub mod World
pub mod Goods
pub mod Boxes
pub mod Coins
