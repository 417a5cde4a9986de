-- ===== src/Examples.antt =====
-- Concrete runs of the modelled code, and each theorem with conditions applied where they hold.
mod Users
mod Review
mod Devices
mod Bs
mod Addresses
mod Journal
mod Xray
mod Injection
mod Notifications
mod Jobs
mod Documents
mod Changes
