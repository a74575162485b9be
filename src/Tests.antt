-- ===== src/Tests.antt =====
-- The theorems at concrete inputs.
mod Hmi
mod Calendar
mod Meter
mod Modbus
mod Charger
mod NetworkLog
mod SmartMeter
mod ConnectionManager
mod App
mod Logging
