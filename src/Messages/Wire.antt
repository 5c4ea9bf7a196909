-- ===== src/Messages/Wire.antt =====
-- The protocol that the comments of the enum in common/messages.h describe: what the controller and
-- the routers send to one another, as words that single spaces separate. `message_of` is the
-- message that stands for a command in the program.
pub mod Printed
pub mod Parsed
pub mod RoundTrip
use re203_projet_reseau.Prelude.{ℕ, List, [], ◌∷◌, ◌++◌, some, none, Str, codes, ℤ}
use re203_projet_reseau.Libc.Decimal.{show_int}
use re203_projet_reseau.Messages.Types.{Acceptance, MessageType, Message, init_message}

pub data Command : Type 0 where
  login_as : Str → ℤ → Command
  login : ℤ → Command
  logout : Command
  greeting : Str → Command
  bye poll : Command
  newlist : Str → Command
  neighborhood_ok : Command
  link : Str → Command
  link_ok : Command
  vector : Str → Command
  vector_ok : Command
  packet : ℤ → Str → Str → ℤ → Str → Command
  packet_ok packet_toofar : ℤ → Str → Str → Command
  ping pong : ℤ → Str → Str → ℤ → Command
  pong_ttlzero : ℤ → Str → Str → Command

-- Words joined by single spaces.
abbrev pub unwords : List Str → Str
unwords [] = []
unwords (w ∷ []) = w
unwords (w ∷ v ∷ ws) = w ++ b' ' ∷ unwords (v ∷ ws)

-- `seqnum q src a dst b`, and the words behind it.
abbrev pub addresses : ℤ → Str → Str → List Str → List Str
addresses q a b ws = codes "seqnum" ∷ show_int q ∷ codes "src" ∷ a ∷ codes "dst" ∷ b ∷ ws

abbrev pub words : Command → List Str
words (login_as id p) = codes "log" ∷ codes "in" ∷ codes "as" ∷ id ∷ codes "port" ∷ show_int p ∷ []
words (login p) = codes "log" ∷ codes "in" ∷ codes "port" ∷ show_int p ∷ []
words logout = codes "log" ∷ codes "out" ∷ []
words (greeting id) = codes "greeting" ∷ id ∷ []
words bye = codes "bye" ∷ []
words poll = codes "poll" ∷ []
words (newlist l) = codes "neighborhood" ∷ codes "newlist" ∷ l ∷ []
words neighborhood_ok = codes "neighborhood" ∷ codes "ok" ∷ []
words (link id) = codes "link" ∷ codes "id" ∷ id ∷ []
words link_ok = codes "link" ∷ codes "ok" ∷ []
words (vector v) = codes "vector" ∷ v ∷ []
words vector_ok = codes "vector" ∷ codes "ok" ∷ []
words (packet q a b t d) =
    codes "packet" ∷ addresses q a b (codes "ttl" ∷ show_int t ∷ codes "data" ∷ d ∷ [])
words (packet_ok q a b) = codes "packet" ∷ addresses q a b (codes "ok" ∷ [])
words (packet_toofar q a b) = codes "packet" ∷ addresses q a b (codes "toofar" ∷ [])
words (ping q a b t) = codes "ping" ∷ addresses q a b (codes "ttl" ∷ show_int t ∷ [])
words (pong q a b t) = codes "pong" ∷ addresses q a b (codes "ttl" ∷ show_int t ∷ [])
words (pong_ttlzero q a b) = codes "pong" ∷ addresses q a b (codes "ttlzero" ∷ [])

abbrev pub wire : Command → Str
wire c = unwords (words c)

-- A message from a source to a destination.
abbrev pub routed : MessageType → ℤ → Str → Str → Message
routed t q a b = record init_message { type = t; seqnum = q; node1 = some a; node2 = some b }

abbrev pub message_of : Command → Message
message_of (login_as id p) = record init_message {
  type = MessageType.login;
  node1 = some id;
  n_parameter = p;
}
message_of (login p) = record init_message { type = MessageType.login; n_parameter = p }
message_of logout = record init_message { type = MessageType.logout }
message_of (greeting id) = record init_message { type = MessageType.greeting; node1 = some id }
message_of bye = record init_message { type = MessageType.bye }
message_of poll = record init_message { type = MessageType.poll }
message_of (newlist l) = record init_message {
  type = MessageType.neighborhood;
  s_parameter = some l;
}
message_of neighborhood_ok = record init_message {
  type = MessageType.neighborhood;
  accept = Acceptance.ok;
}
message_of (link id) = record init_message { type = MessageType.link; node1 = some id }
message_of link_ok = record init_message { type = MessageType.link; accept = Acceptance.ok }
message_of (vector v) = record init_message { type = MessageType.vector; s_parameter = some v }
message_of vector_ok = record init_message { type = MessageType.vector; accept = Acceptance.ok }
message_of (packet q a b t d) = record (routed MessageType.packet q a b) {
  n_parameter = t;
  s_parameter = some d;
}
message_of (packet_ok q a b) = record (routed MessageType.packet q a b) { accept = Acceptance.ok }
message_of (packet_toofar q a b) = record (routed MessageType.packet q a b) {
  accept = Acceptance.toofar;
}
message_of (ping q a b t) = record (routed MessageType.ping q a b) { n_parameter = t }
message_of (pong q a b t) = record (routed MessageType.pong q a b) { n_parameter = t }
message_of (pong_ttlzero q a b) = record (routed MessageType.pong q a b) {
  accept = Acceptance.ttlzero;
}
