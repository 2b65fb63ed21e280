-- ===== src/WorkspaceMember.antt =====
-- app/workspace-member: the members of a workspace, invitations and effective permissions.
-- WorkspaceMember/Entity has the data, WorkspaceMember/Service the operations.
pub mod Entity
pub mod Service
pub mod Resolver
pub mod Database
pub mod Permissions
pub mod Invitations
pub mod Valid
pub mod Table
pub mod Leaves
pub mod Accepting
pub mod Updates
pub mod Lifecycle
mod Examples
