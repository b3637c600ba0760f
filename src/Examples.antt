-- ===== src/Examples.antt =====
-- The theorems at concrete inputs, by the part of the program that they are about.
mod Milli
mod Scrapes
mod Trackers
mod Fetches
mod Cleanups
mod Runs
mod Tests
