-- ===== src/Regex.antt =====
-- apptpl/re_policy.h and apptpl/re_policy.c: the regular expressions that packets are matched
-- with. `Load` reads their file, `Policy` builds and frees the policy.
pub mod Load
pub mod Policy
