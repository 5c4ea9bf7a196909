-- ===== src/Controller.antt =====
-- The controller (controller/): the program that holds the topology and that routers log in to.
pub mod Graph
pub mod Table
pub mod Sock
pub mod Prompt
pub mod Events
pub mod Main
