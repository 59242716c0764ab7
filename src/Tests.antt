-- ===== src/Tests.antt =====
-- Concrete inputs at which the theorems are applied, one module for each part of the program.
mod Prices
mod BarBodies
mod TickBodies
mod QuoteBodies
mod Records
mod Pools
mod Times
mod Packets
mod Factors
mod Limits
mod Caches
mod Clients
mod Calls
mod Files
mod SmartClients
