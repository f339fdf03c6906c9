-- ===== src/Client.antt =====
-- pkg/triple/dubbo3_client.go and dubbo3_conn.go: the client and its connection.
pub mod Network
pub mod Connection
pub mod Dialing
pub mod Calls
