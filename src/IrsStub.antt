-- ===== src/IrsStub.antt =====
-- irs/internal/stub: the server that stands for the IRS.
pub mod Decoding
pub mod Intake
pub mod Model
pub mod Money
pub mod Preflight
pub mod Server
