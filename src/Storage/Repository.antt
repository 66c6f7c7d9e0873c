-- ===== src/Storage/Repository.antt =====
-- src/infra/storage/PriceDataTimeSeriesRepository.cpp: the series of candles in memory, oldest
-- first, over a data file. The mutex makes each method one step of the state.
pub mod Interval
pub mod State
pub mod Append
pub mod Batch
pub mod Storable
pub mod Linked
pub mod Persist
pub mod Invariant
pub mod Preserve
pub mod Methods
pub mod Reload
pub mod Session
pub mod Load
pub mod Queries
