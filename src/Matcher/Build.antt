-- ===== src/Matcher/Build.antt =====
-- `AhoCorasick::build` of src/matcher.rs: the search by levels links every node.
pub mod Rounds
pub mod Fail
pub mod Children
pub mod Queue
pub mod Loop
pub mod First
