-- ===== src/Rtmq.antt =====
-- lib/rtmq and incl/rtmq, the message queue between processes: the messages of a connection, their
-- way into the socket and out of it.
pub mod Mesg
pub mod Recv
pub mod Send
pub mod Routes
mod Tests
