-- ===== src/Ingest.antt =====
-- services/aurora/internal/ingest: the state machine of the ingestion system.
pub mod World
pub mod Nodes
pub mod Steps
pub mod Helpers
pub mod Start
pub mod Resume
pub mod History
pub mod Machine
pub mod Triples
pub mod Closed
pub mod ResumeSpec
pub mod StartSpec
pub mod HistorySpec
pub mod ReingestSpec
pub mod ReingestEnds
pub mod Reach
pub mod Advance
pub mod FromEmpty
mod Examples
