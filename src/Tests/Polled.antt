-- ===== src/Tests/Polled.antt =====
-- What the router A makes of the texts that the controller and the router B send.
use re203_projet_reseau.Prelude.{
  ◌+ℤ◌, ◌≡◌, refl, [], ◌∷◌, some, codes, arith, pos, ok, ◌>>=◌, str_eq,
}
use re203_projet_reseau.Libc.Decimal.{show_int, digits}
use re203_projet_reseau.Messages.Wire.{Command, message_of}
use re203_projet_reseau.Net.Sending.{network_send}
use re203_projet_reseau.Router.Vector.{is_learnt}
use re203_projet_reseau.Router.Vector.Shortest.{route_of}
use re203_projet_reseau.Router.Vector.Received.{handled-vector}
use re203_projet_reseau.Controller.Sock
use re203_projet_reseau.Router.Table.{ClientPointer, RouteTable, find, vector_text, vector_items}
use re203_projet_reseau.Router.State.{with_table, client_at}
use re203_projet_reseau.Router.Start.{new_router}
use re203_projet_reseau.Router.Neighborhood.{is_member}
use re203_projet_reseau.Router.Neighborhood.Items.{Listed}
use re203_projet_reseau.Router.Neighborhood.Listing.{Reweighs}
use re203_projet_reseau.Router.Journey.{handled}
use re203_projet_reseau.Router.Neighborhood.Polled.{poll_of, handled-poll}
use re203_projet_reseau.Tests.{prefix_matcher}
use re203_projet_reseau.Tests.Messages.{prefix_matcher-IsPrefixSound}
use re203_projet_reseau.Tests.Controller.{host, listed, single, only_b, with, one_link, b-Shown}
use re203_projet_reseau.Tests.Table.{to_b, near, of_b, b_side, router_a}

-- The distance of B is from before the link's weight was changed.
abbrev known : RouteTable
known = (codes "B", record to_b { dist = pos 9 }) ∷ []

abbrev b_listed : Listed
b_listed = record { name = codes "B"; weight = pos 5; address = codes "10.0.0.2"; port = pos 4242 }

handled-poll_example :
    (t' : RouteTable) × ((Sock.sock_message listed single (with only_b) (some (poll_of (codes "A")))
        >>= λ r. handled prefix_matcher host [] 0 (router_a known) (ClientPointer.in_array 0) r.1)
      ≡ ok (with_table (router_a known) t'))
    × Reweighs known (b_listed ∷ []) t'
unfolding find is_member new_router str_eq show_int digits
handled-poll_example =
    handled-poll prefix_matcher host [] 0 listed single prefix_matcher-IsPrefixSound (with only_b)
      one_link (codes "A") (router_a known) (ClientPointer.in_array 0) b_listed [] refl refl refl
      b-Shown (omega arith) (omega arith, (refl, tt), omega arith, ground arith) (omega arith)
      ((refl, (record to_b { dist = pos 9 }, refl, refl)), tt) (refl, tt)

-- B sends the vector [C,7].
handled-vector_example :
    (t' : RouteTable) × (handled prefix_matcher host [] 0
        (router_a near)
        (ClientPointer.in_array 1)
        (some (message_of (Command.vector (vector_text of_b (codes "A")))))
      ≡ ok (record (with_table (router_a near) t') {
        calls = (network_send host b_side (some (codes "vector ok"))).1;
      }))
    × (find (codes "B") t' ≡ some (record to_b { seconds_inactive = pos 0 }))
    × (route_of (find (codes "C") t') ≡ some (pos 12, codes "B"))
unfolding find is_learnt new_router str_eq client_at vector_text vector_items show_int digits ◌+ℤ◌
handled-vector_example =
    handled-vector host [] 0 prefix_matcher prefix_matcher-IsPrefixSound (router_a near)
      (ClientPointer.in_array 1) b_side b_side of_b to_b (codes "C") refl refl refl (refl, tt)
      (omega arith) ((refl, refl, omega arith), tt)
      (omega arith, (refl, tt), omega arith, ground arith) refl refl tt refl
