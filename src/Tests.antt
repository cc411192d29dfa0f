-- ===== src/Tests.antt =====
-- Runs of the model at concrete inputs, and each theorem with hypotheses at an input that meets
-- them. One child for each part of the program.
mod Findings
mod Policies
mod Gate
mod Access
mod Jobs
mod Claiming
mod Reviewing
mod Hosts
mod Helping
mod Graphs
mod Learned
mod Hooks
mod Members
mod Posting
mod Packages
mod History
