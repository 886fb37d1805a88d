-- ===== src/Tests.antt =====
-- Concrete payments, policies and logs, and the theorems applied to them.
mod Samples
mod Rules
mod Windows
mod Breaking
mod Layers
mod Guarding
mod Editing
mod Racing
mod Anchors
mod Parking
mod Failing
mod Signing
mod Calling
mod Serving
mod Reporting
mod Fetching
mod Proving
mod Compiling
mod Storing
