-- ===== src/Api.antt =====
-- The types of api/v1 that the static-node controllers read and write.
-- A pointer is an `Option`, a string-typed enumeration a data type with the empty string as
-- `unset`, a Go map an association list in the order of assignment. A slice is a
-- list; the records that are compared with `reflect.DeepEqual` as specs also say which of their
-- empty slices and maps are not nil.
pub mod Meta
pub mod Component
pub mod StaticNode
pub mod StaticNodeCluster
pub mod Accelerator
