-- ===== src/Examples.antt =====
-- The theorems at concrete inputs.
mod Routes
mod Objects
mod Stored
mod Api
mod Restarts
mod Classes
