-- ===== src/Examples.antt =====
-- Runs of the models at concrete inputs, by the part of the program that they exercise.
mod Wire
mod Rooms
mod Starts
mod Calls
mod Sound
mod Ghosts
mod Restarts
mod Endings
mod Discovery
mod Commands
