-- ===== src/Replica.antt =====
-- The owner of a node state and one replica of it, with the deltas of chitchat/src/state.rs between
-- them: what applying a delta merges (Merge, Deliver), what the owner's operations keep (Owner), what it
-- sends (Send, Sound), and the system of the two (World).
pub mod Merge
pub mod Deliver
pub mod Owner
pub mod Send
pub mod Fill
pub mod Full
pub mod Fronts
pub mod Partial
pub mod Returns
pub mod Answer
pub mod Written
pub mod Carried
pub mod Arrives
pub mod Sound
pub mod World
pub mod Phantom
