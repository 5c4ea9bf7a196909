-- ===== src/Tests/Controller.antt =====
-- The controller: controller/exec.c and controller/net_functions.c.
use re203_projet_reseau.Prelude.{
  ap, ◌≡◌, refl, true, false, not, ◌&&◌, ◌||◌, List, [], ◌∷◌, Option, some, none, Str, codes,
  str_eq, arith, pos, ok, fault, null_pointer, uninitialised, if◌then◌else◌,
}
use re203_projet_reseau.Libc.Decimal.{digits, show_int, atoi, scan, signed, skip_blanks, negative}
use re203_projet_reseau.Messages.Reader.{atoi_pointer}
use re203_projet_reseau.Messages.Types.{MessageType, Message, init_message}
use re203_projet_reseau.Net.Client.{Client, SocketName}
use re203_projet_reseau.Net.Sockets.{Os}
use re203_projet_reseau.Net.Network.{Status}
use re203_projet_reseau.Net.Update.{World}
use re203_projet_reseau.Controller.Graph.{
  node_named, Edge, Library, Marks, set_up_to_date, neighbour, graph_get_weight,
}
use re203_projet_reseau.Controller.Table.{ClientInfo, HashTable, table_delete_info, table_get_info}
use re203_projet_reseau.Controller.Sock.{choose_node, Controller, sock_message}
use re203_projet_reseau.Controller.Sock.Answer.{sock_message-poll}
use re203_projet_reseau.Controller.Sock.Login.{is_neighbour, sock_message-login}
use re203_projet_reseau.Controller.Sock.Logout.{sock_message-logout}
use re203_projet_reseau.Controller.Sock.Poll.{Shown, item}
use re203_projet_reseau.Controller.Prompt.{name_of, disconnect}
use re203_projet_reseau.Controller.Prompt.Edges.{DeletesFirst, is_far_end, disconnect-edges}
use re203_projet_reseau.Controller.Events.{disconnection_event, connect_message}
use re203_projet_reseau.Controller.Events.Full.{connect_message-full}
use re203_projet_reseau.Controller.Events.Unknown.{disconnection_event-unknown}
use re203_projet_reseau.Tests.{prefix_matcher}

abbrev pub a : Str
a = codes "A"

abbrev pub b : Str
b = codes "B"

abbrev a_b : Edge
a_b = record { tail = a; head = b; label = some (codes "5") }

abbrev drop_one : List Edge → List Edge
drop_one [] = []
drop_one (e ∷ es) = es

-- A topology of the nodes A and B that stands for its edges.
abbrev pub listed : Library (List Edge)
listed = record {
  open_file = λ p. none;
  nodes = λ g. a ∷ b ∷ [];
  find_node = λ g n. str_eq n a || str_eq n b;
  edges = λ g n. g;
  find_edge = λ g x y. none;
  new_edge = λ g x y s. record { tail = x; head = y; label = some s } ∷ g;
  set_label = λ g e s. g;
  delete_edge = λ g e. drop_one g;
}

-- A table with no more than one entry.
abbrev pub single : HashTable (Option (Str × ClientInfo))
single = record {
  has_key = λ t k. elim t [ none ↦ false | some e ↦ str_eq e.0 k ];
  add = λ t k c. some (k, c);
  remove = λ t k. none;
  lookup = λ t k. elim t [ none ↦ none | some e ↦ if str_eq e.0 k then some e.1 else none ];
}

abbrev pub only_b : Marks
only_b = record { is_connected = λ x. str_eq x b; is_up_to_date = λ x. false }

abbrev at_b : ClientInfo
at_b = record { address = some (codes "10.0.0.2"); port = pos 4242 }

abbrev pub one_link : List Edge
one_link = a_b ∷ []

abbrev pub Ctl : Type 0
Ctl = Controller (List Edge) (Option (Str × ClientInfo))

abbrev pub with : Marks → Ctl
with k = record { graph = some one_link; marks = k; table = some (b, at_b) }

abbrev poll_a : Message
poll_a = record init_message { type = MessageType.poll; node1 = some a }

pub b-Shown :
    Shown listed single (with only_b) a one_link (item b (pos 5) (codes "10.0.0.2") (pos 4242) ∷ [])
unfolding neighbour graph_get_weight str_eq atoi_pointer atoi scan signed skip_blanks negative
    table_get_info
b-Shown =
    Shown.show {e = a_b} (pos 5) (codes "10.0.0.2") (pos 4242) refl refl refl (omega arith)
      Shown.no_more

sock_message-poll_example :
    sock_message listed single (with only_b) (some poll_a)
    ≡ ok (
      with (set_up_to_date a true only_b),
      some (record poll_a {
        type = MessageType.neighborhood;
        s_parameter = some (codes "[B,5,10.0.0.2:4242]");
      }),
    )
unfolding str_eq show_int digits
sock_message-poll_example =
    sock_message-poll listed single (with only_b) one_link poll_a a
      (item b (pos 5) (codes "10.0.0.2") (pos 4242) ∷ []) refl refl refl refl refl b-Shown
      (omega arith)

abbrev login_a : Message
login_a = record init_message {
  type = MessageType.login;
  node1 = some a;
  s_parameter = some (codes "10.0.0.1");
  n_parameter = pos 4243;
}

sock_message-login_example :
    (w' : Ctl) × (sock_message listed single (with only_b) (some login_a)
      ≡ ok (w', some (record login_a { type = MessageType.greeting; node1 = some a })))
    × (only_b.is_connected a ≡ false)
    × ((x : Str) → w'.marks.is_connected x ≡ (str_eq x a || str_eq x b))
    × ((x : Str)
        → w'.marks.is_up_to_date x ≡ (false && not (str_eq x a || is_neighbour a one_link x)))
unfolding str_eq choose_node node_named
sock_message-login_example =
    sock_message-login listed single (with only_b) one_link login_a a refl refl refl

abbrev all_marks : Marks
all_marks = record { is_connected = λ x. true; is_up_to_date = λ x. true }

abbrev logout_of : Str → Message
logout_of n = record init_message { type = MessageType.logout; node1 = some n }

sock_message-logout_example :
    (w' : Ctl) × (sock_message listed single (with all_marks) (some (logout_of b))
      ≡ ok (w', some (record (logout_of b) { type = MessageType.bye })))
    × ((x : Str) → w'.marks.is_connected x ≡ (true && not (str_eq x b)))
    × ((x : Str) → w'.marks.is_up_to_date x ≡ (true && not (is_neighbour b one_link x)))
    × (w'.table ≡ none)
unfolding str_eq table_delete_info
sock_message-logout_example =
    sock_message-logout listed single (with all_marks) one_link (logout_of b) b refl refl refl refl

abbrev nobody : Client
nobody = record { sock = pos 4; id = [] }

abbrev pub host : Os
host = record {
  socket = pos 3;
  bind = λ s p. pos 0;
  listen = λ s n. pos 0;
  gethostbyname = λ s. none;
  connect = λ s h p. pos 0;
  recv = λ s n. none;
  send = λ s t. pos 5;
}

abbrev pub world : World Ctl
world = record {
  state = with only_b;
  network = record { status = Status.opened; server = pos 3; max = pos 4; clients = nobody ∷ [] };
  calls = [];
}

abbrev from_a : SocketName
from_a = record { address = codes "10.0.0.1"; port = pos 4242 }

abbrev taken : World Ctl
taken = record world { state = with all_marks }

connect_message-full_example :
    connect_message listed single prefix_matcher (λ s. some from_a) host taken 0 login_a
    ≡ fault uninitialised
unfolding str_eq
connect_message-full_example =
    connect_message-full listed single prefix_matcher (λ s. some from_a) host taken one_link 0
      nobody from_a login_a a refl refl refl refl refl (refl, (refl, tt)) (ground arith)

disconnection_event-unknown_example :
    disconnection_event listed single prefix_matcher (λ s. none) host world nobody
    ≡ fault null_pointer
unfolding str_eq
disconnection_event-unknown_example =
    disconnection_event-unknown listed single prefix_matcher (λ s. none) host world one_link nobody
      (λ i s h. h) refl refl refl

listed-DeletesFirst : DeletesFirst listed
listed-DeletesFirst g n e edges h = ap drop_one h

abbrev of_a : Message
of_a = record init_message { type = MessageType.disconnect; node1 = some a }

disconnect-edges_example :
    (g' : List Edge) × (k' : Marks) × (disconnect listed one_link all_marks of_a ≡ ok (g', k'))
    × (g' ≡ [])
    × ((x : Str) → k'.is_up_to_date x ≡ (true && not (str_eq x a || is_far_end a one_link x)))
unfolding name_of node_named str_eq
disconnect-edges_example =
    disconnect-edges listed listed-DeletesFirst one_link all_marks of_a a refl
