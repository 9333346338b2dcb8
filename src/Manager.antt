-- ===== src/Manager.antt =====
-- test_manager/testmanager.py
pub mod Database
pub mod Queue
pub mod Server
mod Tests
