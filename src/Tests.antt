-- ===== src/Tests.antt =====
-- Runs of the service at concrete inputs.
mod Fixtures
mod Claims
mod Access
mod Texts
mod History
mod Startup
mod Serving
mod Races
mod Listing
mod Registration
