-- ===== src/Mqtt.antt =====
-- src/home_assistant_v2: the MQTT client and the Home Assistant entities on it.
pub mod Error
pub mod Packet
pub mod Client
pub mod Config
pub mod Entity
pub mod Bound
pub mod Traffic
pub mod Cover
pub mod Button
pub mod Sensor
pub mod BinarySensor
pub mod Announced
