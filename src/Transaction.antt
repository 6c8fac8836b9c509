-- ===== src/Transaction.antt =====
-- The parts of a version 1 transaction, each in its own calltable.
pub mod Scheduling
pub mod EntryPoint
pub mod Target
pub mod PricingMode
pub mod Envelope
pub mod Payload
pub mod V1
pub mod Origin
pub mod Signed
