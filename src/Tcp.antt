-- ===== src/Tcp.antt =====
-- tcp/: connections, and what opens and accepts them.
pub mod Connection
pub mod Connector
pub mod Acceptor
pub mod Address
pub mod Socket
pub mod Server
pub mod Client
