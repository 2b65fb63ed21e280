-- ===== src/Connection.antt =====
-- lib/kubernetes-graphql-connection/kubernetes-connection.manager.ts: lists of objects as pages.
pub mod Value
pub mod Filter
pub mod Sort
pub mod Page
pub mod Manager
pub mod Examples
