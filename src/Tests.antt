-- ===== src/Tests.antt =====
-- Runs of the model on concrete inputs, and the theorems at inputs that meet their hypotheses.
mod Machine
mod Wg
mod Overlay
mod Spelled
mod Extras
mod Disk
mod SelfUpdate
mod Node
mod Conf
mod Engine
mod Removed
mod Files
mod Singbox
mod Installer
mod Panel
mod Main
