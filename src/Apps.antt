-- ===== src/Apps.antt =====
-- The programs of src/apps: two servers with one and the same main function, and two plugins.
pub mod Server
pub mod Plugin
