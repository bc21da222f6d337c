-- ===== src/Dotenv.antt =====
-- src/dotenv/mod.rs: the format of environment files, its parser and its printer of one value.
pub mod Message
pub mod Values
pub mod Parse
pub mod Keys
pub mod RoundTrip
pub mod Report
