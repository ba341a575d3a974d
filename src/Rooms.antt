-- ===== src/Rooms.antt =====
-- The life of a classroom up to its discussion: backend/app/application/enrollment.py and the services of
-- classrooms, invitations and sessions that it composes.
pub mod Classrooms
pub mod Invitations
pub mod Sessions
pub mod Gateway
pub mod Enrollment
pub mod Keeps
pub mod Seats
pub mod Answers
pub mod Guests
pub mod Loading
pub mod Ways
