-- ===== src/Tests.antt =====
-- Instances of the theorems at concrete inputs, and test data for them.
mod Data
mod Requests
mod Responses
mod Routing
mod Worker
mod Work
mod Configs
mod Arguments
mod Pools
mod Servers
mod Mains
mod Logs
mod Holds
mod Cancels
mod Blocks
mod Signals
mod Routers
mod Awaits
