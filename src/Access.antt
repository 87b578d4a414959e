-- ===== src/Access.antt =====
-- Users, their sessions and workspaces: the memory repository and the services on it.
pub mod Data
pub mod Memory
pub mod Invites
pub mod Workspaces
pub mod Inviting
pub mod Logins
pub mod Roles
pub mod Owners
pub mod Ownership
pub mod Visits
pub mod Steps
pub mod Tokens
pub mod Accepted
