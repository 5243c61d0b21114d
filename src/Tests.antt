-- ===== src/Tests.antt =====
-- The theorems at concrete data, by the part of the program that they are about.
mod Samples
mod Actions
mod Policies
mod Versions
mod Rounds
mod Proposals
mod Streams
mod Costs
mod Schemas
mod Callers
mod Campaigns
mod Pools
mod Experiments
mod Desks
mod Reports
mod Harvests
