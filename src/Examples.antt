-- ===== src/Examples.antt =====
-- The models run on concrete inputs, and the theorems applied there.
mod NativeProto
mod Sharding
mod Monopath
mod Policy
mod Ledger
mod MergeRequest
mod WorkspaceStore
mod GrantStore
mod Codeowners
mod Merge3
mod Lease
