-- ===== src/Lease.antt =====
-- internal/adapter/postgres/lease.go, nodes.go and ranges.go: the table `crawl_ranges` with the row
-- of `crawl_states`, for one site and scope. A call is one step, and Interleaved
-- takes the commits of a lease apart. Times and durations
-- are nanoseconds; a comparison with NULL is false.
pub mod Store
pub mod Acquire
pub mod Report
pub mod Admin
pub mod Coverage
pub mod Split
pub mod Reuse
pub mod Carving
pub mod Acquisition
pub mod Started
pub mod Fencing
pub mod History
pub mod Interleaved
pub mod Granted
pub mod Tokens
pub mod Backoff
pub mod Gaps
mod Examples
mod Races
