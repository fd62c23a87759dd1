-- ===== src/Examples.antt =====
-- Concrete runs of the theorems, by the part of the program that they are about.
mod Shared
mod Parts
mod Ends
mod Streams
mod Conversations
mod Signals
mod Transports
mod Vtables
mod Programs
mod Reads
