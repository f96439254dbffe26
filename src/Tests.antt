-- ===== src/Tests.antt =====
-- The theorems at concrete inputs.
mod Samples
mod Lookups
mod Addresses
mod Files
mod Servers
mod Queries
mod Configs
mod Names
mod Hosts
mod Origins
mod Systems
