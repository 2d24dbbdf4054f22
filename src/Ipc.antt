-- ===== src/Ipc.antt =====
-- kernel/src/task/ipc.cpp and kernel/include/task/ipc.hpp: message ports and the table of handles.
pub mod Port
pub mod Manager
mod Tests
