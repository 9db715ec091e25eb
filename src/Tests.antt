-- ===== src/Tests.antt =====
-- Runs of the program's definitions: a concrete platform, concrete states, and each theorem at
-- concrete inputs.
mod Toy
mod States
mod Archives
mod Readers
mod Commands
mod Whole
mod Streams
mod Program
mod Buckets
mod Values
