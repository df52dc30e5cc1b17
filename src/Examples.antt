-- ===== src/Examples.antt =====
-- Sample runs of the broker, and the theorems on them.
mod Delivery
mod Following
mod Network
mod Returning
mod Waits
mod Retention
mod Session
mod Acks
mod Access
mod Settings
mod Login
mod Workers
