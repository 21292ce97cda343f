-- ===== src/Publisher.antt =====
-- internal/hamqtt/publisher.go: the connection to the broker as explicit state, with what the broker was
-- told. Each call of the MQTT client ends as a list of replies says: while it waits, the connection may be
-- lost and the updater may report a new state. Errors are whether there is one; the payloads of the
-- messages are parameters, and so are the address of the interface and the selection of measurements.
pub mod Broker
pub mod Updates
pub mod Entities
pub mod Life
pub mod Calls
pub mod Guarding
pub mod Availability
pub mod Offering
pub mod Passing
pub mod Assurance
pub mod Progress
pub mod Finishing
pub mod Answers
pub mod Retaining
pub mod Sent
pub mod Sending
pub mod Announcing
pub mod Recording
pub mod Withdrawing
mod Tests
