-- ===== src/Satoken.antt =====
-- satoken/: Sa-Token sessions over a key-value store.
pub mod Value
pub mod Session
pub mod Json
pub mod Codec
pub mod Keys
pub mod Store
pub mod Memory
pub mod Redis
pub mod Token
pub mod Logic
