-- ===== src/Tests.antt =====
-- The theorems at concrete inputs.
mod Samples
mod Organizations
mod Logins
mod Invites
mod Keys
mod Accounts
mod Registrations
mod Signups
mod Addresses
mod Shared
