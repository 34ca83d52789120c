-- ===== src/Examples.antt =====
-- Tests of the definitions, and the theorems applied at concrete inputs.
pub mod Server
mod Requests
pub mod Storage
mod Messaging
mod Calling
mod Stores
mod Databases
mod Running
mod Clients
mod Processes
