-- ===== src/Rtsps.antt =====
-- The RTSP server process: Server/RTSPS. The back end relays between the front end and the
-- system monitor of each node; the front end speaks RTSP with the clients.
pub mod Back
pub mod Front
pub mod RoundTrip
mod Tests
