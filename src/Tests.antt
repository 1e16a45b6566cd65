-- ===== src/Tests.antt =====
-- Concrete inputs for the theorems, and tests of the definitions.
mod Sample
mod Returning
mod Pulling
mod Filing
mod Reminding
mod Reconciling
mod Validating
mod Ingesting
mod Rating
mod Connecting
mod Delivering
mod Consenting
mod Limiting
mod Entering
