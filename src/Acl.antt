-- ===== src/Acl.antt =====
-- plugins/auth/authfile: access rules from a file. aclcheck.go decides, spilt.go takes topics
-- apart, aclconfig.go reads the file.
pub mod Spilt
pub mod Check
pub mod Config
