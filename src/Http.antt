-- ===== src/Http.antt =====
-- The two servers over HTTP. The library that parses and routes HTTP is not part of the sources:
-- the models take the requests as it hands them over.
mod Tests
pub mod Rest
pub mod Soap
