-- ===== src/Tests.antt =====
-- Runs of the model at concrete inputs, and the theorems applied at such inputs.
mod Fixtures
mod Scenarios
mod Examples
mod WireExamples
mod RelayExamples
mod DeliverExamples
mod EditExamples
mod UpdateExamples
mod WasmExamples
mod ObserveExamples
mod FrameExamples
