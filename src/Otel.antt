-- ===== src/Otel.antt =====
-- src/otel: the OTLP exporters.
pub mod Proto
pub mod Pipeline
pub mod Traces
pub mod Metrics
pub mod Records
pub mod Env
