-- ===== src/Controller/Main.antt =====
-- controller/main.c, `exec__init` of controller/exec.c and common/prompt.c: how the controller starts, the
-- loop of its network and the lines that its user types.
pub mod Life
use re203_projet_reseau.Prelude.{
  ℕ, not, ◌-◌, ◌+◌, ◌++◌, ◌%◌, ◌^◌, Bool, true, false, List, [], ◌∷◌, Option, none, some, Str,
  codes, length, take, if◌then◌else◌, ℤ, pos, negsuc, ◌==ℤ◌, Outcome, ok, fault, exited,
  uninitialised, ◌>>=◌,
}
use re203_projet_reseau.Config.{Configuration}
use re203_projet_reseau.Messages.Parse.{parse}
use re203_projet_reseau.Net.Client.{SocketName}
use re203_projet_reseau.Net.Sockets.{Os}
use re203_projet_reseau.Net.Network.{
  Network, network_open, network_is_opened, network_close, network_free,
}
use re203_projet_reseau.Net.Update.{World, Poll, network_update}
use re203_projet_reseau.Controller.Graph.{Library}
use re203_projet_reseau.Controller.Table.{HashTable}
use re203_projet_reseau.Controller.Sock.{Controller}
use re203_projet_reseau.Controller.Prompt.{Console, prompt_message, quit_signal}
use re203_projet_reseau.Controller.Events.{controller_events}

-- The `int` of the configuration as the `unsigned int` that `network__open` takes.
unfoldable pub controller_port : Option ℤ → Outcome ℕ
controller_port none = fault uninitialised
controller_port (some (pos n)) = ok n
controller_port (some (negsuc n)) = ok (2 ^ 32 - (n + 1))

-- The process exits where the server's socket does not open.
unfoldable pub opened_or_exit : Option Network → Outcome Network
opened_or_exit none = fault exited
opened_or_exit (some net) = ok net

-- `exec__init` for a configuration that has been read.
unfoldable pub exec_init : Os → Configuration → Outcome Network
exec_init os config = do
  port ← controller_port config.controller_port
  opened_or_exit (network_open os port)

module _ {T H : Type 0} (lib : Library T) (hash : HashTable H) (trex_match : Str → Str → Bool)
    (getsockname : ℤ → Option SocketName) where
  -- One round for each answer of the system; none when the process exits.
  unfoldable pub network_loop :
      List (Os × Poll) → World (Controller T H) → Outcome (Option (World (Controller T H)))
  network_loop [] w = ok (some w)
  network_loop ((os, poll) ∷ rounds) w =
      if not (network_is_opened w.network) then ok (some w) else do
        r ← network_update (controller_events lib hash trex_match getsockname os) os poll w
        elim r [ none ↦ ok none | some w1 ↦ network_loop rounds w1 ]

module _ {T H : Type 0} (lib : Library T) (trex_match : Str → Str → Bool) where
  -- A line as `fgets` gives it; its last byte is cut off, whatever it is.
  unfoldable pub prompt_line : Console T H → Str → Outcome (Console T H × ℤ)
  prompt_line s line = do
    m ← parse trex_match (some (take (length line - 1) line))
    prompt_message lib s m

  -- The lines up to the end of the input, or to the command that ends the thread.
  unfoldable pub prompt_main_thread : Console T H → List Str → Outcome (Console T H × Bool)
  prompt_main_thread s [] = ok (s, false)
  prompt_main_thread s (line ∷ lines) = prompt_line s line >>= λ r.
      if r.1 ==ℤ quit_signal then ok (r.0, true) else prompt_main_thread r.0 lines

  -- The topology that the command line names; what the command returns is not looked at.
  unfoldable pub load_topology : Console T H → Str → Outcome (Console T H)
  load_topology s name = do
    m ← parse trex_match (some (codes "load " ++ name))
    r ← prompt_message lib s m
    ok r.0

-- What the end of `main` closes; the command `quit` has closed it already.
unfoldable pub closed : {T H : Type 0} → Console T H → Console T H
closed s = record s {
  network = (network_close s.network).0;
  calls = (s.calls ++ (network_close s.network).1) ++ network_free (network_close s.network).0;
}
