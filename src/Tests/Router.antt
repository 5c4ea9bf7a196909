-- ===== src/Tests/Router.antt =====
-- Routers that handle messages (router/exec.cpp and router/event.cpp), and messages that pass several of
-- them.
use re203_projet_reseau.Prelude.{
  ◌+ℤ◌, ◌≡◌, refl, false, [], ◌∷◌, ◌++◌, some, Str, codes, arith, pos, ok, fault, uncaught, ℕ, Bool,
  not, ◌&&◌, if◌then◌else◌, ◌==◌, ◌==ℤ◌, ◌>>=◌, str_eq,
}
use re203_projet_reseau.Messages.Types.{Message}
use re203_projet_reseau.Messages.Wire.{Command, message_of, wire}
use re203_projet_reseau.Messages.Print.{
  Buffer, to_string, printed, out_buffer, read_buffer, print_text, print_as, print_link,
  write_buffer,
}
use re203_projet_reseau.Messages.Escape.{
  treat_output, treat_output_bytes, escape_bytes, escape_from,
}
use re203_projet_reseau.Util.{strcopy, strcopy2}
use re203_projet_reseau.Libc.Decimal.{show_int, digits}
use re203_projet_reseau.Net.Sending.{network_send, send_framed}
use re203_projet_reseau.Net.Update.{World, Poll, network_update}
use re203_projet_reseau.Net.Client.{Client, same_client, client_set_id}
use re203_projet_reseau.Net.Sockets.{Effect, read_client, write_client}
use re203_projet_reseau.Router.Events.{router_events}
use re203_projet_reseau.Router.Events.Stale.{forward-stale}
use re203_projet_reseau.Router.Exec.Handed.{
  sent_text, sock_message-passed_on, sock_message-answered,
}
use re203_projet_reseau.Messages.Wire.Printed.{to_string-fits}
use re203_projet_reseau.Router.SockActions.{forward, link_ack, send_to, send}
use re203_projet_reseau.Router.Table.{ClientPointer, find, put, str_ltb, assigned, new_entry}
use re203_projet_reseau.Router.State.{Router, client_at, name_client, put_client}
use re203_projet_reseau.Router.Start.{new_router}
use re203_projet_reseau.Router.Exec.{
  sock_message, receive, receive_link, is_ok, add_link, link_entry, not_caught,
}
use re203_projet_reseau.Router.Exec.Forward.{Route}
use re203_projet_reseau.Router.Exec.Transit.{sock_message-unknown}
use re203_projet_reseau.Router.Journey.{journey, Survives, OnTheWay, IsRelay}
use re203_projet_reseau.Router.Journey.Ends.{journey-data, journey-acknowledgement}
use re203_projet_reseau.Messages.Regexes.{IsPrefixSound}
use re203_projet_reseau.Tests.{prefix_matcher}
use re203_projet_reseau.Tests.Controller.{host}
use re203_projet_reseau.Tests.Table.{to_b, to_c, learnt, controller, router_a, b_side}

abbrev w : World Router
w = router_a learnt

b_route : Route w (codes "B") b_side
unfolding find client_at new_router str_eq
b_route = record { entry = to_b; hop = to_b; found = refl; next = refl; connected = refl }

c_route : Route w (codes "C") b_side
unfolding find client_at new_router str_eq
c_route = record { entry = to_c; hop = to_b; found = refl; next = refl; connected = refl }

-- From B to C, by A.
abbrev packet : ℕ → Command
packet n = Command.packet (pos 1) (codes "B") (codes "C") (pos n) (codes "hi")

-- The text of a packet and the way to C.
sock_message-passed_on_example :
    sock_message host [] 0 w (some (message_of (packet 3))) (ClientPointer.in_array 1)
    ≡ ok (sent_text host w b_side (wire (packet 2)))
unfolding str_eq new_router ◌+ℤ◌
sock_message-passed_on_example =
    sock_message-passed_on host [] 0 w (packet 3) (packet 2) (ClientPointer.in_array 1) (codes "C")
      b_side refl refl refl (ground arith) c_route (unfold show_int digits in omega arith)

abbrev lost : Message
lost = message_of (Command.packet (pos 1) (codes "B") (codes "D") (pos 3) (codes "hi"))

sock_message-unknown_example :
    sock_message host [] 0 w (some lost) (ClientPointer.in_array 1) ≡ fault uncaught
unfolding str_eq new_router find
sock_message-unknown_example =
    sock_message-unknown host [] 0 w lost (ClientPointer.in_array 1) (codes "D") tt refl refl
      (ground arith) refl refl

abbrev too_far : Command
too_far = Command.packet_toofar (pos 1) (codes "C") (codes "B")

sock_message-answered_example :
    sock_message host [] 0 w (some (message_of (packet 0))) (ClientPointer.in_array 1)
    ≡ ok (sent_text host w b_side (wire too_far))
unfolding str_eq new_router
sock_message-answered_example =
    sock_message-answered host [] 0 w (packet 0) (ClientPointer.in_array 1) (codes "B") (codes "C")
      b_side (pos 30) refl refl refl refl refl b_route (unfold show_int digits in omega arith)

abbrev ends_in_r : Str → Bool
ends_in_r [] = false
ends_in_r (c ∷ []) = c == b'r'
ends_in_r (c ∷ d ∷ s) = ends_in_r (d ∷ s)

-- A matcher that tells `toofar` at the end of a pattern and of a text from other ends.
abbrev end_matcher : Str → Str → Bool
end_matcher pattern s =
    prefix_matcher pattern s && (if ends_in_r pattern then ends_in_r s else not (ends_in_r s))

end_matcher-IsPrefixSound : IsPrefixSound end_matcher
end_matcher-IsPrefixSound i s h = ground arith

-- Two routers with the table of A.
abbrev here : World Router × ClientPointer
here = (w, ClientPointer.in_array 1)

here-OnTheWay : OnTheWay (codes "B") (codes "C") here
unfolding str_eq new_router
here-OnTheWay = record {
  relay = record { other = refl; ahead = b_side; to_b = c_route };
  back = b_side;
  to_a = b_route;
  ttl = pos 30;
  configured = refl;
}

back : IsRelay (codes "B") here
unfolding str_eq new_router
back = record { other = refl; ahead = b_side; to_b = b_route }

too_far-Survives : Survives end_matcher host [] 0 too_far
unfolding show_int digits
too_far-Survives = (omega arith, (refl, (refl, (refl, tt))), omega arith, ground arith)

journey-data_example :
    journey end_matcher host [] 0 (here ∷ here ∷ []) (some (message_of (packet 1)))
    ≡ ok (some (message_of too_far))
unfolding show_int digits
journey-data_example =
    journey-data end_matcher end_matcher-IsPrefixSound host [] 0 (pos 1) (codes "B") (codes "C")
      (codes "hi") (here ∷ []) here ((omega arith, (refl, tt), omega arith, ground arith), tt)
      too_far-Survives (here-OnTheWay, tt) here-OnTheWay

journey-acknowledgement_example :
    journey end_matcher host [] 0 (here ∷ here ∷ here ∷ []) (some (message_of too_far))
    ≡ ok (some (message_of too_far))
journey-acknowledgement_example =
    journey-acknowledgement end_matcher end_matcher-IsPrefixSound host [] 0
      (here ∷ here ∷ here ∷ []) too_far (codes "B") refl too_far-Survives (back, (back, (back, tt)))

-- The connection of B ends; another router is behind it in the array.
abbrev d_side : Client
d_side = record { sock = pos 6; id = codes "D" }

abbrev three : World Router
three = record w {
  network = record w.network { max = pos 6; clients = controller ∷ b_side ∷ d_side ∷ [] };
}

abbrev ready_5 : Poll
ready_5 = record { ready = some (λ fd. fd ==ℤ pos 5); accept = pos 7; typed = []; stack_id = [] }

printed_3 : to_string (some (message_of (packet 3))) ≡ ok (Buffer.text (wire (packet 3)))
unfolding show_int digits
printed_3 = to_string-fits (packet 3) (omega arith)

forward-stale_example :
    (w' : World Router) × (network_update
        (router_events prefix_matcher host [] 0)
        host
        ready_5
        three
      ≡ ok (some w'))
    × (w'.state.table ≡ learnt)
    × (w'.network.clients ≡ controller ∷ d_side ∷ [])
    × ((forward host w' (message_of (packet 3)) >>= not_caught)
        ≡ ok (sent_text host w' d_side (wire (packet 3))))
unfolding str_eq new_router find read_client same_client
forward-stale_example =
    forward-stale prefix_matcher host [] 0 ready_5 three (λ fd. fd ==ℤ pos 5) (controller ∷ [])
      b_side d_side [] (codes "C") to_c to_b (message_of (packet 3)) (wire (packet 3)) refl
      (refl, refl, refl) refl (refl, tt) refl refl (refl, tt) refl refl refl refl refl printed_3

-- A router that is new asks for a link.
abbrev linking : Message
linking = message_of (Command.link (codes "D"))

abbrev newcomer : World Router
newcomer = record three {
  network = record three.network {
    clients = controller ∷ b_side ∷ record { sock = pos 6; id = [] } ∷ [];
  };
}

abbrev linked : World Router
linked = record three {
  state = record three.state {
    table = learnt ++ (codes "D", link_entry (codes "D") (ClientPointer.in_array 2)) ∷ [];
  };
  calls = Effect.send (pos 6) (codes "link ok*") ∷ [];
}

link_accepted :
    sock_message host [] 0 newcomer (some linking) (ClientPointer.in_array 2) ≡ ok linked
unfolding sock_message receive receive_link is_ok add_link find str_eq name_client client_at
    put_client client_set_id link_ack send_to send to_string print_text print_as print_link
    write_buffer printed out_buffer read_buffer put str_ltb link_entry assigned new_entry new_router
    network_send send_framed strcopy treat_output treat_output_bytes escape_bytes escape_from
    write_client strcopy2
link_accepted = refl
