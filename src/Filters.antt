-- ===== src/Filters.antt =====
-- The filters of src/filters/.
pub mod Alternates
pub mod Travel
pub mod NoRepeat
pub mod PressureToKey
pub mod SpeedMod
pub mod Barrier
pub mod Mirror
pub mod Rotate
pub mod Abs2Rel
pub mod Btn2Rel
pub mod Rel2Scroll
pub mod KeyLock
pub mod KeySubstitute
pub mod ScaleAbs
pub mod Commit
pub mod Kalman
pub mod WeightedAverage
pub mod AtHandle
pub mod CopyToHandle
pub mod GetFromHandle
pub mod FilterToHandle
pub mod Creat
pub mod Stages
pub mod Status
pub mod Dump
