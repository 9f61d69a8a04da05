-- ===== src/Examples.antt =====
-- Concrete inputs on which the theorems apply.
mod Data
mod Requests
mod Fans
mod Hwmon
mod Auditing
mod Volumes
mod Audio
mod Systems
mod Storage
mod Collecting
mod Running
mod Listening
