-- ===== src/Parser.antt =====
-- governance/parser.py: the laws of a policy source.
pub mod Shlex
pub mod Values
pub mod Laws
pub mod Parsed
pub mod Policies
pub mod Reports
