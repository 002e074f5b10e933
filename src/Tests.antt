-- ===== src/Tests.antt =====
-- Tests of the model, and the theorems at concrete inputs.
mod Association
mod Key
mod Packet
mod Bytes
mod Scan
mod Frames
mod Transmit
mod Send
mod Session
mod Rbtree
mod BssCache
mod Lists
