-- ===== src/Hotkey.antt =====
-- pkg/hotkey: the evdev listener. The numbers of keys and event types come from packages outside the
-- repository and are arguments here.
pub mod Evdev
pub mod Edges
pub mod Readers
pub mod Devices
