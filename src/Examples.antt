-- ===== src/Examples.antt =====
-- Small inputs on which the theorems of the other modules are applied.
mod Collector
mod Usage
mod Pricing
mod Blocks
mod Cli
mod Server
mod Summary
mod Auth
mod Services
mod Rules
