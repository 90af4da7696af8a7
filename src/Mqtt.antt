-- ===== src/Mqtt.antt =====
-- mqtt/AnuDBMqttClient.cpp: the worker that takes requests from a broker and publishes the answers,
-- and the sending of one response with retries. nng, the messaging library, is what its calls return.
pub mod Session
pub mod Handlers
pub mod Requests
pub mod Client
pub mod Arguments
pub mod FileLoader
pub mod Worker
pub mod Sending
