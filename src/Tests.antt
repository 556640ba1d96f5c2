-- ===== src/Tests.antt =====
-- Small programs on which the theorems are tried: a server with one echoing method, clients with
-- numbers for messages.
pub mod Samples
pub mod Servers
pub mod Rpcs
pub mod Clients
pub mod Lifecycles
pub mod Methods
pub mod Threads
pub mod Services
pub mod Memory
