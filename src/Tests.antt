-- ===== src/Tests.antt =====
-- The theorems at concrete inputs, and runs of the models.
mod Fixtures
mod Store
mod Guarantee
mod Quiet
mod Start
mod Progress
mod Consumer
mod KafkaConsumer
mod RecoveryLoop
mod Server
mod Wiring
mod Failure
mod Grpc
mod Nats
mod Kafka
mod Broker
