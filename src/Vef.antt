-- ===== src/Vef.antt =====
-- loaders/vef-loader.c, the loader of VEF programs, for the i386 kernel, and bin/vef-pack.c, which
-- makes their files.
pub mod Window
pub mod Loader
pub mod Pack
mod Tests
