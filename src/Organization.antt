-- ===== src/Organization.antt =====
-- Organizations: who may operate, the team, its invitations.
pub mod Access
pub mod Invitation
pub mod InvitationLife
pub mod Team
pub mod Tests
