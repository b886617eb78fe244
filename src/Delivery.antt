-- ===== src/Delivery.antt =====
-- The way of the date through the program: from the proxy's response
-- (exsamene/src/network_config.c) to the display (exsamene/src/screen.c).
pub mod Rounds
pub mod Date
mod Examples
