-- ===== src/Ruleset.antt =====
-- control/src/ruleset/compiled.rs and refparse.rs: the compiled forms of IP and domain lists.
pub mod Ranges
pub mod IpSet
pub mod SuffixTrie
pub mod Reference
pub mod DomainSet
pub mod QnameValue
pub mod Lists
pub mod Schedule
