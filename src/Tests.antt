-- ===== src/Tests.antt =====
-- Concrete runs of the parts, one module for each.
mod Data
mod Coalescing
mod Sql
mod Requests
mod Classifying
mod Executing
mod Entering
mod Processing
mod Flushing
mod Running
mod Storing
mod Measuring
