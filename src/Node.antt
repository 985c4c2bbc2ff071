-- ===== src/Node.antt =====
-- A node of the server: Server/SCH_SYSMOND/scheduler_sysmon.cc and scheduler_sysmon.h. The system
-- monitor takes the requests of the RTSP server (Receive) and the answers of the file library
-- (Respond), the file library's thread works on its messages (Files), and the scheduler sends the
-- packets of the sessions that play (Scheduler, Rtp). The threads share the list of sessions and
-- the number of sessions that play. What an operation sends is returned in order, and a clock or a
-- random number that it reads is an argument. Events says where the threads interleave.
pub mod Session
pub mod Rtp
pub mod Receive
pub mod Respond
pub mod Files
pub mod Scheduler
pub mod Play
pub mod Count
pub mod Ids
pub mod Events
mod Tests
