-- ===== src/Go.antt =====
-- Go as the program uses it: errors, panics, machine words and encoding/json.
pub mod Word
pub mod Effects
pub mod Json
pub mod Memory
