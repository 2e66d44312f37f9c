-- ===== src/Cache.antt =====
-- backend/cache/src: the layer over Redis. `Redis` is the interface to the server, `Client` the
-- calls over the network; the other modules follow the source's files.
pub mod Redis
pub mod Client
pub mod Store
pub mod Keys
pub mod RateLimit
pub mod Backoff
pub mod Deletion
pub mod Session
pub mod Memory
pub mod PubSub
