-- ===== src/Leads.antt =====
-- The parts of the lead store: who sees a lead, its record with every change, its log, the lists, bulk
-- assignment and bulk deletion.
pub mod Visibility
pub mod Assign
pub mod Delete
pub mod Log
pub mod Detail
pub mod Outcome
pub mod Status
pub mod Edit
pub mod Sound
pub mod Calls
pub mod Conditions
pub mod Pages
