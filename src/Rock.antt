-- ===== src/Rock.antt =====
-- Package rockfmw: RPC by service and method over HTTP and websocket.
pub mod Registry
pub mod Dispatch
pub mod Session
pub mod Serving
