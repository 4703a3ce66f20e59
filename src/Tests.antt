-- ===== src/Tests.antt =====
-- Sample data, tests, and one concrete use of each theorem.
mod Sample
mod Documents
mod MerkleTree
mod Patterns
mod Decisions
mod Steps
mod Bundles
mod Loading
mod Scores
mod Handles
mod Directories
mod Runs
mod Calls
mod Tasks
mod Walks
mod Models
mod Openings
mod Corpus
