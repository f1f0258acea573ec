-- ===== src/Tests.antt =====
-- The theorems at concrete inputs.
pub mod FilterRuns
pub mod FilterSteps
pub mod Params
pub mod Queues
pub mod Compositions
pub mod Daemons
pub mod Names
pub mod Messages
pub mod Starts
pub mod Statuses
pub mod Averages
pub mod Lines
pub mod Files
pub mod Handles
pub mod Hotplugs
pub mod Keys
