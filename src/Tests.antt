-- ===== src/Tests.antt =====
-- Runs of the modelled code at concrete inputs.
mod Tunnel
mod Codecs
mod Choices
mod Dials
mod Joins
mod Services
mod Roots
mod Proxies
mod Updates
mod Headers
