-- ===== src/Sessions.antt =====
-- Refresh sessions: their table, the rotation of a refresh token with the detection of its reuse, and
-- the ways to end a session (src/auth/refresh-token.service.ts).
pub mod Token
pub mod Model
pub mod Service
mod Tests
