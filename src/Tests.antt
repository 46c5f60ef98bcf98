-- ===== src/Tests.antt =====
-- Concrete inputs for the theorems of each part.
mod Data
mod QueueRuns
mod Messages
mod Clients
mod Receivers
mod Memory
mod Exchange
mod RtlTcpRuns
mod Filtering
mod FilterWords
mod Programs
mod Deliveries
mod Launches
