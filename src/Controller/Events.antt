-- ===== src/Controller/Events.antt =====
-- controller/net_functions.c: the event functions of the controller, which `network__update` calls.
pub mod Full
pub mod Invariant
pub mod Keeping
pub mod Stars
pub mod Unknown
use re203_projet_reseau.Prelude.{
  ℕ, Bool, true, false, List, [], ◌∷◌, ◌++◌, Option, none, some, Str, Pointer, codes, get_elem?,
  set, ◌==◌, if◌then◌else◌, Outcome, ok, fault, out_of_bounds, ℤ, deref, ◌>>=◌,
}
use re203_projet_reseau.Util.{strcopy2}
use re203_projet_reseau.Messages.Escape.{treat_input}
use re203_projet_reseau.Messages.Types.{MessageType, Message}
use re203_projet_reseau.Messages.Parse.{parse}
use re203_projet_reseau.Messages.Print.{printed}
use re203_projet_reseau.Messages.Multiline.{multiline_parse}
use re203_projet_reseau.Net.Client.{Client, SocketName, client_set_id, client_get_address}
use re203_projet_reseau.Net.Sockets.{Os}
use re203_projet_reseau.Net.Network.{network_disconnect}
use re203_projet_reseau.Net.Sending.{network_send}
use re203_projet_reseau.Net.Update.{World, Events}
use re203_projet_reseau.Controller.Graph.{Library}
use re203_projet_reseau.Controller.Table.{HashTable}
use re203_projet_reseau.Controller.Sock.{Controller, sock_message}

-- The loop that looks for the last star from the end: the text up to it, the empty text if there
-- is none.
unfoldable pub up_to_last_star : Str → Str
up_to_last_star [] = []
up_to_last_star (c ∷ s) = elim (up_to_last_star s) [
  | [] ↦ if c == b'*' then c ∷ [] else []
  | d ∷ rest ↦ c ∷ d ∷ rest
]

-- The types that the controller takes no message of.
unfoldable pub is_refused : MessageType → Bool
is_refused MessageType.none = true
is_refused MessageType.vector = true
is_refused MessageType.packet = true
is_refused MessageType.ping = true
is_refused MessageType.pong = true
is_refused _ = false

unfoldable pub is_none : MessageType → Bool
is_none MessageType.none = true
is_none _ = false

unfoldable pub is_bye : MessageType → Bool
is_bye MessageType.bye = true
is_bye _ = false

-- `strcopy2 (&p, origin)`
unfoldable pub copied : Pointer → Pointer → Pointer
copied p origin = elim (strcopy2 (some p) origin) [ none ↦ p | some q ↦ q ]

module _ {T H : Type 0} (lib : Library T) (hash : HashTable H) (trex_match : Str → Str → Bool)
    (getsockname : ℤ → Option SocketName) (os : Os) where
  -- `network__send` to a client, whose result is not read.
  unfoldable pub send_to : World (Controller T H) → Client → Pointer → World (Controller T H)
  send_to w c text = record w { calls = w.calls ++ (network_send os c text).1 }

  unfoldable pub drop_client : World (Controller T H) → Client → World (Controller T H)
  drop_client w c = record w {
    network = (network_disconnect w.network c).0;
    calls = w.calls ++ (network_disconnect w.network c).1;
  }

  -- The client that a pointer into the array points to.
  unfoldable pub client_at : World (Controller T H) → ℕ → Outcome Client
  client_at w i = elim (get_elem? w.network.clients i) [
    | none ↦ fault out_of_bounds
    | some c ↦ ok c
  ]

  unfoldable pub put_client : World (Controller T H) → ℕ → Client → World (Controller T H)
  put_client w i c = record w { network = record w.network { clients = set w.network.clients i c } }

  -- The answer to a message of a new client: the id is kept and the message sent. The flag says that
  -- the loop goes on.
  unfoldable pub greet :
      World (Controller T H) → ℕ → Option Message → Outcome (World (Controller T H) × Bool)
  greet w i none = do c ← client_at w i; ok (send_to w c (some (codes "log out")), false)
  greet w i (some m) = do
    c ← client_at w i
    named ← client_set_id c m.node1
    text ← printed (some m)
    ok (send_to (put_client w i named) named text, true)

  unfoldable pub connect_message :
      World (Controller T H) → ℕ → Message → Outcome (World (Controller T H) × Bool)
  connect_message w i m = do
    c ← client_at w i
    if is_none m.type then ok (drop_client w c, false) else do
      address ← client_get_address getsockname c
      r ←
          sock_message lib hash w.state
            (some (record m { s_parameter = copied m.s_parameter (some address) }))
      greet (record w { state = r.0 }) i r.1

  unfoldable pub connect_messages :
      World (Controller T H) → ℕ → List (Option Message) → Outcome (World (Controller T H))
  connect_messages w i [] = ok w
  connect_messages w i (none ∷ ms) = connect_messages w i ms
  connect_messages w i (some m ∷ ms) =
      connect_message w i m >>= λ r. elim r.1 [ true ↦ connect_messages r.0 i ms | false ↦ ok r.0 ]

  unfoldable pub connection_event :
      World (Controller T H) → ℕ → Str → Outcome (World (Controller T H))
  connection_event w i s = do
    r ← multiline_parse trex_match (some (up_to_last_star s))
    elim r.0 [ none ↦ ok w | some ms ↦ connect_messages w i ms ]

  -- `mess__parse (mess__treatInput ("log out*"))` under the client's name.
  unfoldable pub disconnection_event :
      World (Controller T H) → Client → Outcome (World (Controller T H) × Client)
  disconnection_event w c = do
    text ← treat_input (some (codes "log out*"))
    p ← parse trex_match text
    m ← deref p
    r ← sock_message lib hash w.state (some (record m { node1 = copied m.node1 (some c.id) }))
    ok (record w { state = r.0 }, c)

  unfoldable pub after_send :
      World (Controller T H) → Client → MessageType → World (Controller T H) × Bool
  after_send w c t = if is_bye t then (drop_client w c, false) else (w, true)

  -- The answer to a message of a client that is known.
  unfoldable pub reply :
      World (Controller T H) → Client → Option Message → Outcome (World (Controller T H) × Bool)
  reply w c none = ok (w, false)
  reply w c (some m) = do text ← printed (some m); ok (after_send (send_to w c text) c m.type)

  unfoldable pub client_message :
      World (Controller T H) → Client → Message → Outcome (World (Controller T H) × Bool)
  client_message w c m = if is_refused m.type then ok (w, true) else do
    r ← sock_message lib hash w.state (some (record m { node1 = copied m.node1 (some c.id) }))
    reply (record w { state = r.0 }) c r.1

  unfoldable pub client_messages :
      World (Controller T H) → Client → List (Option Message) → Outcome (World (Controller T H))
  client_messages w c [] = ok w
  client_messages w c (none ∷ ms) = client_messages w c ms
  client_messages w c (some m ∷ ms) =
      client_message w c m >>= λ r. elim r.1 [ true ↦ client_messages r.0 c ms | false ↦ ok r.0 ]

  unfoldable pub message_event :
      World (Controller T H) → Client → Str → Outcome (World (Controller T H))
  message_event w c s = do
    r ← multiline_parse trex_match (some (up_to_last_star s))
    elim r.0 [ none ↦ ok w | some ms ↦ client_messages w c ms ]

  -- `exec__init` sets these four.
  unfoldable pub controller_events : Events (Controller T H)
  controller_events = record {
    input_event = λ w s. ok w;
    connection_event = connection_event;
    disconnection_event = disconnection_event;
    message_event = message_event;
  }
