-- ===== src/Controller/Connector.antt =====
-- The connector of internal/controller/temporalnamespace/temporalnamespace.go, which
-- internal/controller/searchattribute/searchattribute.go repeats: one shared client for each set of
-- credentials, with a count of its users.
pub mod Interleaving
pub mod Cache
pub mod Invariant
pub mod Remaining
pub mod Disconnect
pub mod Checkout
pub mod Histories
pub mod Connect
pub mod Account
pub mod Hash
pub mod Service
pub mod Runs
pub mod Order
pub mod Drain
pub mod Workers
pub mod Shared
