-- ===== src/Net.antt =====
-- The files of net/: the channels and the poller of an event loop, what other threads give it to do,
-- the pool of loops, the connections and the server.
pub mod Channel
pub mod SocketAddr
pub mod EpollPoller
pub mod SelectPoller
pub mod EventLoop
pub mod Pool
pub mod Connection
pub mod Server
pub mod Sockets
pub mod AcceptNew
pub mod Startup
mod Tests
mod AcceptTests
