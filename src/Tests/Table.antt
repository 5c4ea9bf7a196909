-- ===== src/Tests/Table.antt =====
-- The table of routes: the texts that change it (router/router.cpp).
use re203_projet_reseau.Prelude.{
  ◌≡◌, refl, true, false, [], ◌∷◌, some, none, codes, arith, pos, ok, fault, dangling, ◌+ℤ◌, str_eq,
  inl, inr,
}
use re203_projet_reseau.Config.{Configuration, SoftwareType}
use re203_projet_reseau.Libc.Decimal.{show_int, digits}
use re203_projet_reseau.Net.Client.{Client}
use re203_projet_reseau.Net.Network.{Status}
use re203_projet_reseau.Net.Update.{World}
use re203_projet_reseau.Router.Table.{
  ClientPointer, Entry, RouteTable, find, vector_text, vector_items,
}
use re203_projet_reseau.Router.State.{Router}
use re203_projet_reseau.Router.Start.{new_router}
use re203_projet_reseau.Router.Vector.{parse_vector, is_learnt}
use re203_projet_reseau.Router.Vector.Shortest.{
  route_of, parse_vector-shortest, parse_vector-neighbor,
}
use re203_projet_reseau.Router.Vector.Served.{parse_vector-learnt}
use re203_projet_reseau.Router.Neighborhood.Items.{Listed}

-- `configured` sets what the routers of the tests read.
abbrev pub configured : Configuration
configured = record {
  type = SoftwareType.router;
  controller_address = some (codes "localhost");
  router_port = some (pos 5000);
  controller_port = some (pos 4242);
  poll_timeout_value = none;
  controller_update_interval = none;
  router_update_interval = none;
  default_ttl_value = some (pos 30);
  default_ping_packet_count = some (pos 4);
  default_packet_timeout_value = none;
  default_dv_timeout_value = none;
}

-- B is a neighbour at the distance 5, on the connection 1, and C lies behind it.
abbrev pub to_b : Entry
to_b = record {
  name = codes "B";
  next_hop = codes "B";
  dist = pos 5;
  is_neighbor = true;
  client = ClientPointer.in_array 1;
  is_complete = true;
  seconds_inactive = pos 0;
}

abbrev pub to_c : Entry
to_c = record {
  name = codes "C";
  next_hop = codes "B";
  dist = pos 9;
  is_neighbor = false;
  client = ClientPointer.null;
  is_complete = false;
  seconds_inactive = pos 0;
}

abbrev pub near : RouteTable
near = (codes "B", to_b) ∷ []

abbrev pub learnt : RouteTable
learnt = (codes "B", to_b) ∷ (codes "C", to_c) ∷ []

abbrev beside_c : Entry
beside_c = record to_b { name = codes "C"; next_hop = codes "C"; dist = pos 8 }

-- Two neighbours.
abbrev both : RouteTable
both = (codes "B", to_b) ∷ (codes "C", beside_c) ∷ []

-- The table of B.
abbrev pub of_b : RouteTable
of_b = (codes "A", to_b) ∷ (codes "C", record to_c { dist = pos 7 }) ∷ []

vector_of_b : vector_text of_b (codes "A") ≡ codes "[C,7]"
unfolding vector_text vector_items str_eq show_int digits
vector_of_b = refl

-- C lies at 7 behind B, which is at 5.
parse_vector-shortest_example :
    (t' : RouteTable) × (parse_vector
        (codes "A")
        near
        (some (vector_text of_b (codes "A")))
        (codes "B")
      ≡ ok t')
    × (route_of (find (codes "C") t') ≡ some (pos 12, codes "B"))
unfolding find is_learnt str_eq ◌+ℤ◌
parse_vector-shortest_example =
    parse_vector-shortest (codes "A") (codes "B") of_b near to_b (codes "C") refl (refl, tt)
      (omega arith) ((refl, refl, omega arith), tt) refl tt refl

-- C is a neighbour at 8, too: its distance is 7 from then on, though the way by B has the length 12.
parse_vector-neighbor_example :
    (t' : RouteTable) × (parse_vector
        (codes "A")
        both
        (some (vector_text of_b (codes "A")))
        (codes "B")
      ≡ ok t')
    × (find (codes "C") t' ≡ some (record beside_c { next_hop = codes "B"; dist = pos 7 }))
unfolding find is_learnt str_eq ◌+ℤ◌
parse_vector-neighbor_example =
    parse_vector-neighbor (codes "A") (codes "B") of_b both to_b beside_c (codes "C") (pos 7) refl
      (refl, (refl, tt)) (omega arith) ((refl, refl, omega arith), tt) refl refl refl refl refl

parse_vector-learnt_example :
    parse_vector (codes "A") learnt (some (codes "[]")) (codes "B") ≡ fault dangling
unfolding is_learnt str_eq
parse_vector-learnt_example = parse_vector-learnt (codes "A") (codes "B") learnt [] (inr (inl refl))

-- The router A with a connection to the controller and one to B.
abbrev pub controller : Client
controller = record { sock = pos 4; id = codes "controlleur" }

abbrev pub b_side : Client
b_side = record { sock = pos 5; id = codes "B" }

abbrev pub router_a : RouteTable → World Router
router_a t = record {
  state = record (new_router (codes "A") configured) {
    table = t;
    controller = ClientPointer.in_array 0;
  };
  network = record {
    status = Status.opened;
    server = pos 3;
    max = pos 5;
    clients = controller ∷ b_side ∷ [];
  };
  calls = [];
}

abbrev b_listed : Listed
b_listed = record { name = codes "B"; weight = pos 8; address = codes "localhost"; port = pos 5001 }
