-- ===== src/Security.antt =====
-- What guards the services' endpoints (services/common/security.py).
pub mod RateLimit
mod Tests
