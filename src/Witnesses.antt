-- ===== src/Witnesses.antt =====
-- Concrete tables, packets and connections, and runs of the program on them.
mod Samples
mod Tables
mod Rings
mod Packets
mod Messages
mod Rounds
mod Bytes
mod Switch
mod Replies
mod Sessions
mod Lines
mod Leaks
