-- ===== src/Kafka.antt =====
-- The parts of src/kafka.
pub mod Wire
