-- ===== src/Router.antt =====
-- router/: the router. Its table of routes, what it sends, and what it does with the messages of the
-- controller, of other routers and of its user.
pub mod Events
pub mod Exec
pub mod Neighborhood
pub mod Start
pub mod Journey
pub mod State
pub mod SockActions
pub mod Prompt
pub mod PromptActions
pub mod Table
pub mod Vector
