-- ===== src/Examples.antt =====
-- The theorems at concrete inputs: what their hypotheses allow, evaluated.
pub mod Numbers
mod Wire
mod Desk
pub mod Plans
pub mod Mutes
mod Owned
mod MatrixRepair
mod Gains
mod Repairs
mod Windows
mod Watching
mod Switching
mod Reloads
mod Limited
mod Straight
mod Verified
