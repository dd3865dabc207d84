-- ===== src/Contracts.antt =====
-- The shared data of src/contracts.ts: chat observations and send attempts (Contracts/Chat), tasks
-- (Contracts/Tasks) and messages between agents (Contracts/Messages). An optional field is an
-- `Option`; a record has the fields that the modelled code reads. An empty text stays distinct from an absent one.
mod Chat
mod Tasks
mod Messages
pub use Chat.*
pub use Tasks.*
pub use Messages.*
