-- ===== src/Gossip.antt =====
-- What the nodes of a cluster tell each other: chitchat/src/state.rs and chitchat/src/lib.rs. Honest is
-- about what a node stores and sends, Handled about the messages that it processes, and Network about
-- any number of nodes with the messages between them.
pub mod Honest
pub mod Handled
pub mod Network
