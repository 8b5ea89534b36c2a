-- ===== src/Proxy.antt =====
-- src/proxy and the locks of src/common that it uses: where a proxy sends a slot's commands.
pub mod SlotMap
pub mod SlotMutex
pub mod Tests
