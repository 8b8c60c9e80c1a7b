-- ===== src/Tests.antt =====
-- Concrete storages and collaborators, runs of the model, and each theorem at a concrete input.
mod Memory
mod Storage
mod Service
mod Requests
mod Handlers
mod Middlewares
mod System
mod Disk
mod Logs
mod Clearing
mod Apps
mod Routing
mod Timeouts
mod Startup
mod Goroutines
mod Delivery
mod Losses
mod Traffic
mod Overlap
mod Contexts
mod Unit
