-- ===== src/Tests.antt =====
-- The theorems at concrete inputs, and concrete functions for the parameters of the model.
mod Instances
mod Samples
mod Answers
mod Runs
mod Markers
mod Plans
mod Desired
mod Search
mod Bounds
mod Nested
mod Starting
mod Resolving
mod Admitted
mod Convergence
mod Copying
mod Removal
mod Renewal
mod Creation
mod Slot
mod Histories
mod Leaving
