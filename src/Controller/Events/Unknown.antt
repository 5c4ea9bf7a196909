-- ===== src/Controller/Events/Unknown.antt =====
-- A client of the controller (controller/net_functions.c) that leaves without a name.
use re203_projet_reseau.Prelude.{
  [], ◌≡◌, refl, Bool, true, false, Option, some, Str, codes, get_or, ok, fault, null_pointer, ℤ,
}
use re203_projet_reseau.Messages.Types.{MessageType, init_message}
use re203_projet_reseau.Messages.Escape.{unescape_bytes, strip_star, treat_input_bytes, treat_input}
use re203_projet_reseau.Messages.Regexes.{regex_strtable, IsPrefixSound}
use re203_projet_reseau.Messages.Wire.{Command, wire}
use re203_projet_reseau.Messages.Wire.RoundTrip.{parse-wire}
use re203_projet_reseau.Util.{strcopy2}
use re203_projet_reseau.Net.Client.{Client, SocketName}
use re203_projet_reseau.Net.Sockets.{Os}
use re203_projet_reseau.Net.Update.{World}
use re203_projet_reseau.Controller.Graph.{Library}
use re203_projet_reseau.Controller.Table.{HashTable}
use re203_projet_reseau.Controller.Sock.{Controller}
use re203_projet_reseau.Controller.Sock.Logout.{sock_message-logout_unknown}
use re203_projet_reseau.Controller.Events.{copied, disconnection_event}

treat_input-logout : treat_input (some (codes "log out*")) ≡ ok (some (wire Command.logout))
unfolding treat_input treat_input_bytes strip_star unescape_bytes
treat_input-logout = refl

module _ {T H : Type 0} (lib : Library T) (hash : HashTable H) (trex_match : Str → Str → Bool)
    (getsockname : ℤ → Option SocketName) (os : Os) where
  -- Once a topology is loaded, when a client leaves whose name is not a node of the topology,
  -- disconnection_event logs it out all the same and reads a NULL node. The matcher must match log
  -- out to its pattern.
  pub disconnection_event-unknown :
      (w : World (Controller T H)) (g : T) (c : Client)
      → IsPrefixSound trex_match
      → trex_match (get_or regex_strtable 12 []) (codes "log out") ≡ true
      → w.state.graph ≡ some g
      → lib.find_node g c.id ≡ false
      → disconnection_event lib hash trex_match getsockname os w c ≡ fault null_pointer
  unfolding disconnection_event copied strcopy2
  disconnection_event-unknown w g c sound known eg missing =
      let text : treat_input (some (codes "log out*")) ≡ ok (some (wire Command.logout)) =
        treat_input-logout in
      let parsed = parse-wire trex_match sound Command.logout tt (known, tt) in
      let gone =
        sock_message-logout_unknown lib hash w.state g
          (record init_message { type = MessageType.logout; node1 = some c.id }) c.id eg refl refl
          missing in
      rw (text, parsed, gone) refl
