-- ===== src/Tests.antt =====
-- Runs of the model on small inputs, and each theorem at an input that meets its hypotheses.
mod Samples
mod Rules
mod Decisions
mod Names
mod Requests
mod Responses
mod Retrieval
mod Retries
mod Incoming
mod Listening
mod Matching
mod Publishing
mod Subjects
mod Handlers
mod Starting
mod Timestamps
mod Versions
