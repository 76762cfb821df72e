-- ===== src/Tests.antt =====
-- Tests and concrete instances of the theorems.
mod Handlers
mod Plugin
mod Webhook
mod Friends
mod Topics
mod Access
mod Commands
mod Requests
mod Queue
mod Latest
mod Pairing
mod Display
