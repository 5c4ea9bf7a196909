-- ===== src/Messages.antt =====
-- common/messages.c and common/messages.h: the messages of the protocol, their escaping, their
-- parser and their printer.
pub mod Escape
pub mod Types
pub mod Regexes
pub mod Reader
pub mod Cases
pub mod Parse
pub mod Print
pub mod Wire
pub mod Multiline
