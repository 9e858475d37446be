-- ===== src/Rpc.antt =====
-- jsonrpc/: JSON-RPC 2.0 over HTTP and over a websocket.
pub mod Message
pub mod Base64
pub mod Spans
pub mod Server
pub mod Conn
pub mod Link
pub mod OutChans
pub mod Client
