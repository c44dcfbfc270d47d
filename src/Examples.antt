-- ===== src/Examples.antt =====
-- The theorems applied to small inputs.
mod Objects
mod Futures
mod Retried
mod Jobs
mod Workers
mod Stored
mod Executors
mod Servers
mod Waits
mod Plain
mod Shared
mod Waiters
mod Local
mod Machines
mod Joins
