-- ===== src/Reconcile.antt =====
-- src/cloud/reconcile.rs: reconciliation of the old cloud with the declared one. `Merge` has the
-- merge of one server in each mode, `Cloud` the whole function, `RebaseData` and `Deploy` the
-- preparation of a Rebase and its remote actions.
pub mod Merge
pub mod RebaseData
pub mod Deploy
pub mod Cloud
