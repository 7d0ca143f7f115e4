-- ===== src/Tests.antt =====
-- Runs of the code at concrete inputs, and the theorems at inputs that meet their hypotheses.
mod Buffers
mod Sending
mod Receiving
mod Format
mod Writing
mod Requests
mod Features
mod Parsing
mod Reading
mod Opening
mod Arriving
mod Sockets
mod Watchers
mod Copying
mod Checking
