-- ===== src/Systemctl.antt =====
-- src/systemctl: the init script's links in the rc directories, and the commands over services.
pub mod Links
pub mod Commands
mod Tests
