-- ===== src/Tests.antt =====
-- Runs on concrete inputs, and the theorems at concrete data, a module for each part of the program.
mod Trees
mod Chunks
mod Paths
mod Disks
mod Transports
mod Indexes
mod Sizes
mod Mounts
mod Lookups
mod Layers
mod Starts
