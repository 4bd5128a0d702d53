-- ===== src/Network.antt =====
-- The network position source: src/handler/position/network and src/utils/NetworkRequestManager.cpp.
pub mod Backend
pub mod Wifi
pub mod Cells
pub mod Provider
mod Tests
