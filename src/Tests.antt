-- ===== src/Tests.antt =====
-- Runs on concrete input, and the theorems at concrete data, part by part.
mod Begun
mod Published
mod Floats
mod Serial
mod Validator
mod Parser
mod Modbus
mod Config
mod Mqtt
mod Main
mod Server
mod Port
mod Logger
mod Startup
mod Session
mod Threads
