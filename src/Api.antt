-- ===== src/Api.antt =====
-- api/v1alpha1: the custom resources that a user writes, with the fields of the Kubernetes types
-- around them that the operator reads or writes.
pub mod Meta
pub mod SmbShare
pub mod SmbSecurityConfig
pub mod SmbCommonConfig
