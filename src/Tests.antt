-- ===== src/Tests.antt =====
-- Runs of the model on a small hotel, and the theorems at inputs that meet their hypotheses.
mod Data
mod System
mod Requests
mod Orders
mod Desk
mod Staff
mod Kyc
mod Auth
mod Sync
mod Colive
mod Worker
mod Queue
mod Beds
mod Rooms
