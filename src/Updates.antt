-- ===== src/Updates.antt =====
-- The position updates of the service (src/lunaIpc/LocationService.cpp): the requests of the
-- clients, the criteria that a position meets, the replies to the subscribers, and when the
-- handlers are started and stopped.
pub mod Table
pub mod Criteria
pub mod Service
pub mod State
pub mod Status
pub mod Streams
pub mod Replies
pub mod Notices
pub mod Cancel
pub mod Requests
pub mod Cached
mod Tests
