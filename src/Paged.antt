-- ===== src/Paged.antt =====
-- memoryManage/paged: the page engine, which hands pages to its clients through a shared table of
-- messages and registers them over a socket.
pub mod Msg
pub mod Engine
pub mod Socket
pub mod Client
