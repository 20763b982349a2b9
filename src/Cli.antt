-- ===== src/Cli.antt =====
-- cli/ and config/: the settings, the HTTP routes, the processes and the commands.
pub mod Config
pub mod Routes
pub mod Processes
pub mod Commands
