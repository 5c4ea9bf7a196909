-- ===== src/Router/Start.antt =====
-- router/router.cpp, router/prompt.cpp and router/main.cpp: how a router starts, the loop of its network
-- and the lines that its user types.
pub mod Life
use re203_projet_reseau.Prelude.{
  ℤ, not, ℕ, ◌-◌, ◌++◌, Bool, true, false, List, [], ◌∷◌, Option, none, some, Str, length, take,
  if◌then◌else◌, pos, Outcome, ok, fault, exited, uninitialised, ◌>>=◌,
}
use re203_projet_reseau.Config.{Configuration}
use re203_projet_reseau.Messages.Parse.{parse}
use re203_projet_reseau.Net.Sockets.{Os}
use re203_projet_reseau.Net.Network.{
  Network, network_open, network_connect, network_is_opened, network_close, network_free,
}
use re203_projet_reseau.Net.Update.{World, Poll, network_update}
use re203_projet_reseau.Router.Table.{ClientPointer}
use re203_projet_reseau.Router.State.{Router, new_exec, setting, name_client}
use re203_projet_reseau.Router.Neighborhood.{to_unsigned}
use re203_projet_reseau.Router.SockActions.{login}
use re203_projet_reseau.Router.Prompt.{prompt_message}
use re203_projet_reseau.Router.Events.{controller_id, router_events}

-- The state of a router that is being built, without its connection.
unfoldable pub new_router : Str → Configuration → Router
new_router name config = record {
  name = name;
  table = [];
  controller = ClientPointer.null;
  config = config;
  seqnum = pos 0;
  exec = new_exec;
  is_running = true;
  client = none;
  shown = [];
}

unfoldable pub address_of : Configuration → Outcome Str
address_of config = elim config.controller_address [ none ↦ fault uninitialised | some a ↦ ok a ]

-- The loop over the attempts to reach the controller, each with what the system then answers; none when
-- all have failed, where the program tries again.
unfoldable pub reach_controller : Str → Str → ℕ → List Os → Network → Outcome (Option (Network × ℕ))
reach_controller stack_id address port [] net = ok none
reach_controller stack_id address port (os ∷ attempts) net = do
  r ← network_connect os net address port stack_id
  elim r.1 [
    | some i ↦ ok (some (r.0, i))
    | none ↦ reach_controller stack_id address port attempts r.0
  ]

-- The connection gets its name, and the router logs in.
unfoldable pub log_in : Os → Str → Configuration → Network → ℕ → Outcome (World Router)
log_in os name config net i = do
  let c = ClientPointer.in_array i
  w ←
      name_client
        (record {
          state = record (new_router name config) { controller = c };
          network = net;
          calls = [];
        })
        c controller_id
  port ← setting config.router_port
  login os w port (some name)

unfoldable pub log_in_if_reached :
    Os → Str → Configuration → Option (Network × ℕ) → Outcome (Option (World Router))
log_in_if_reached os name config none = ok none
log_in_if_reached os name config (some (net, i)) =
    log_in os name config net i >>= (λ w. ok (some w))

-- The process exits where the server's socket does not open.
unfoldable pub served : Option Network → Outcome Network
served none = fault exited
served (some net) = ok net

unfoldable pub open_server : Os → ℤ → Outcome Network
open_server os router_port = served (network_open os (to_unsigned router_port))

-- The constructor `Router (name, conf)` for a configuration that has been read.
unfoldable pub start : Os → Str → List Os → Str → Configuration → Outcome (Option (World Router))
start os stack_id attempts name config = do
  router_port ← setting config.router_port
  net ← open_server os router_port
  address ← address_of config
  port ← setting config.controller_port
  r ← reach_controller stack_id address (to_unsigned port) attempts net
  log_in_if_reached os name config r

module _ (trex_match : Str → Str → Bool) (stack_id : Str) where
  -- `mainLoop`, one round for each answer of the system; none when the process exits.
  unfoldable pub main_loop : List (Os × Poll × ℕ) → World Router → Outcome (Option (World Router))
  main_loop [] w = ok (some w)
  main_loop ((os, poll, now) ∷ rounds) w =
      if not (network_is_opened w.network) then ok (some w) else do
        r ← network_update (router_events trex_match os stack_id now) os poll w
        elim r [ none ↦ ok none | some w1 ↦ main_loop rounds w1 ]

  -- A line of `Prompt::main_thread`; its last byte is cut off, whatever it is.
  unfoldable pub prompt_line : Os → ℕ → (ℕ → ℕ) → World Router → Str → Outcome (World Router × Bool)
  prompt_line os now clock w s = do
    m ← parse trex_match (some (take (length s - 1) s))
    prompt_message os now clock w m

  -- The lines up to the end of the input, or to the command that ends the process.
  unfoldable pub prompt_lines :
      Os → ℕ → (ℕ → ℕ) → World Router → List Str → Outcome (World Router × Bool)
  prompt_lines os now clock w [] = ok (w, false)
  prompt_lines os now clock w (s ∷ lines) = prompt_line os now clock w s >>= λ r. elim r.1 [
    | true ↦ ok r
    | false ↦ prompt_lines os now clock r.0 lines
  ]

-- The destructor: what `network__close` and `network__free` close. It joins the thread of `timeChecker`,
-- which nothing has started, last.
unfoldable pub destroyed : World Router → World Router
destroyed w = record w {
  network = (network_close w.network).0;
  calls = (w.calls ++ (network_close w.network).1) ++ network_free (network_close w.network).0;
}
