-- ===== src/Commands.antt =====
-- sdiol.c: the functions behind the commands, from opening to closing.
pub mod ServeUnix
pub mod Closing
pub mod Local
pub mod Writing
pub mod Tidy
pub mod Dealing
pub mod Remapped
pub mod Tables
pub mod Remote
pub mod Relay
pub mod Main
pub mod Ends
pub mod Whole
pub mod Configured
