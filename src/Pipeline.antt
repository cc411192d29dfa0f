-- ===== src/Pipeline.antt =====
-- src/bot/review: how the findings of a review become its comments and its verdict.
pub mod Merge
pub mod Comments
pub mod Stages
pub mod Merged
pub mod Verdict
pub mod Chosen
pub mod Reviewed
