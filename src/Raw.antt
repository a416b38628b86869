-- ===== src/Raw.antt =====
-- src/raw.c: messages (raws), shared by reference count, and the two pools of each connection
-- (subuser) in which they wait to be sent.
pub mod Forge
pub mod Heap
pub mod Pool
pub mod Send
pub mod Inline
pub mod Listing
pub mod High
pub mod Whole
pub mod Frame
pub mod Answer
