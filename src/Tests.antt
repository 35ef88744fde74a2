-- ===== src/Tests.antt =====
-- The theorems at concrete inputs, one module for each component.
mod L2table
mod Tcam
mod Stats
mod Barrier
mod Action
mod Pipeline
mod Xbuf
mod Kflow
