-- ===== src/Examples.antt =====
-- Concrete inputs for the theorems, and tests of the definitions.
mod Amounts
mod Batches
mod Delays
mod Permits
mod Working
mod Reports
mod Replies
mod Acknowledged
mod Frames
mod Filed
mod Exceptions
mod Imports
mod Stub
mod Determinations
mod Serving
