-- ===== src/Tests.antt =====
-- The theorems at concrete inputs, and concrete functions in place of the libraries.
mod Integers
mod Runs
mod Texts
mod Objects
mod Payments
mod Payloads
mod Signed
mod Multi
mod Trees
mod Files
mod Network
mod Commands
mod Handled
mod Sent
