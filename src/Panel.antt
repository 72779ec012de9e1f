-- ===== src/Panel.antt =====
-- The panel under panel/internal/.
pub mod Automation
pub mod ProxyChain
pub mod Auth
pub mod Subscription
pub mod Dns
pub mod Uplink
