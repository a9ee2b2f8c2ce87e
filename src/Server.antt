-- ===== src/Server.antt =====
-- tcpServer.h and tcpServer.cpp: the class `TcpServer`.
pub mod Balance
pub mod Integers
pub mod Units
pub mod Config
pub mod Load
pub mod Keys
pub mod Reading
pub mod Entries
pub mod Serving
pub mod Queueing
pub mod Accepting
pub mod Shares
