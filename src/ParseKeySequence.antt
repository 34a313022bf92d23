-- ===== src/ParseKeySequence.antt =====
-- src/config/ParseKeySequence.h and .cpp: the parser of the input and output expressions of a
-- configuration.
pub mod Parser
pub mod Strings
pub mod Steps
pub mod Parse
pub mod Keeps
pub mod KeepsTyping
pub mod Rounds
pub mod SymbolRounds
pub mod Outcomes
pub mod WellFormed
pub mod Checks
pub mod Tests
