-- ===== src/Tests.antt =====
-- The definitions on concrete inputs, and the theorems applied to them.
mod Roadmaps
mod Schedulers
mod Stores
mod Journals
mod Risks
mod Merges
mod Sessions
mod Scopes
mod Campaigns
mod Findings
mod Capabilities
