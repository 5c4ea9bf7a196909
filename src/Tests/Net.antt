-- ===== src/Tests/Net.antt =====
-- The network: common/net.c.
use re203_projet_reseau.Prelude.{
  true, str_eq, ℕ, suc, ◌+◌, ◌≡◌, refl, [], ◌∷◌, some, none, codes, arith, ℤ, pos, negsuc, ◌==ℤ◌,
  ok, length, if◌then◌else◌,
}
use re203_projet_reseau.Messages.Escape.{escape_from, escape_bytes, treat_output_bytes}
use re203_projet_reseau.Net.Client.{same_client, Client}
use re203_projet_reseau.Net.Sockets.{Os, Effect, send_error, c_string, read_client, write_client}
use re203_projet_reseau.Net.Network.{
  network_is_opened, Status, Network, opened_on, add_client, remove_client,
}
use re203_projet_reseau.Net.Network.Array.{grown, remove_client-first}
use re203_projet_reseau.Net.Network.Watched.{Reach, Step, IsWatched, Fits, Reach-IsWatched}
use re203_projet_reseau.Net.Sending.{broadcast, broadcast_to, prefixed, strncat, network_broadcast}
use re203_projet_reseau.Net.Sending.Broadcast.{one_each, network_broadcast-each}
use re203_projet_reseau.Net.Update.{
  handle_connection, is_set, dispatch, is_client_socket, World, Events, Poll, network_update,
}
use re203_projet_reseau.Net.Update.Invariant.{IsSound, Respects, sound, network_update-IsSound}
use re203_projet_reseau.Net.Update.Served.{network_update-hangup, network_update-message}

-- The second client's socket, 5, fails when it is sent to; only 6 has something to read.
abbrev host : Os
host = record {
  socket = pos 3;
  bind = λ s p. pos 0;
  listen = λ s n. pos 0;
  gethostbyname = λ s. some 1;
  connect = λ s h p. pos 0;
  recv = λ s n. if s ==ℤ pos 6 then some (codes "poll*") else none;
  send = λ s t. if s ==ℤ pos 5 then negsuc 0 else pos 5;
}

abbrev r1 : Client
r1 = record { sock = pos 4; id = codes "R1" }

abbrev r2 : Client
r2 = record { sock = pos 5; id = codes "R2" }

abbrev r3 : Client
r3 = record { sock = pos 6; id = codes "R3" }

abbrev three : Network
three = record { status = Status.opened; server = pos 3; max = pos 6; clients = r1 ∷ r2 ∷ r3 ∷ [] }

remove_client-first_example : remove_client three r2 ≡ record three { clients = r1 ∷ r3 ∷ [] }
unfolding same_client str_eq
remove_client-first_example =
    remove_client-first three r2 r2 (r1 ∷ []) (r3 ∷ []) refl (refl, tt) refl

one_client : Reach (pos 3) (grown (opened_on (pos 3)) r1)
unfolding add_client opened_on
one_client = Reach.next Reach.start (Step.accepted r1 refl)

Reach-IsWatched_example :
    IsWatched (grown (opened_on (pos 3)) r1) × Fits (grown (opened_on (pos 3)) r1)
Reach-IsWatched_example = Reach-IsWatched (pos 3) one_client

network_broadcast-each_example :
    network_broadcast host three (some (codes "bye"))
    ≡ (send_error, one_each (codes "bye*") (r1 ∷ r2 ∷ r3 ∷ []))
unfolding treat_output_bytes escape_bytes escape_from
network_broadcast-each_example = network_broadcast-each host three (codes "bye")

-- Event functions that count.
abbrev counters : Events ℕ
counters = record {
  input_event = λ w s. ok w;
  connection_event = λ w i s. ok (record w { state = suc w.state });
  disconnection_event = λ w c. ok (record w { state = suc w.state }, c);
  message_event = λ w c s. ok (record w { state = w.state + length s });
}

abbrev poll_of : ℤ → Poll
poll_of s = record { ready = some (λ fd. fd ==ℤ s); accept = pos 7; typed = []; stack_id = [] }

abbrev world : World ℕ
world = record { state = 0; network = three; calls = [] }

network_update-hangup_example :
    network_update counters host (poll_of (pos 5)) world
    ≡ ok (
        some (record {
          state = 1;
          network = record three { clients = r1 ∷ r3 ∷ [] };
          calls = Effect.close (pos 5) ∷ [];
        }))
unfolding same_client str_eq read_client
network_update-hangup_example =
    network_update-hangup counters host (poll_of (pos 5)) world (record world { state = 1 })
      (λ fd. fd ==ℤ pos 5) (r1 ∷ []) r2 (r3 ∷ []) refl (refl, refl, refl) refl (refl, tt) refl refl
      (refl, tt) refl refl

network_update-message_example :
    network_update counters host (poll_of (pos 6)) world ≡ ok (some (record world { state = 5 }))
unfolding c_string
network_update-message_example =
    network_update-message counters host (poll_of (pos 6)) world (λ fd. fd ==ℤ pos 6) (r1 ∷ r2 ∷ [])
      r3 [] b'p' (codes "oll*") refl (refl, refl, refl) refl (refl, (refl, tt)) refl refl

counters-Respects : Respects counters
counters-Respects = record {
  on_input = λ w s h. sound h;
  on_connection = λ w i s h. sound h;
  on_disconnection = λ w c h. h;
  on_message = λ w c s h. sound h;
}

-- The turn of the last example, found by running it.
arrival :
    network_update counters host (poll_of (pos 3)) world
    ≡ ok (
        some (record world { state = 1; network = grown three (record { sock = pos 7; id = [] }) }))
unfolding network_update network_is_opened dispatch is_set is_client_socket handle_connection
    read_client add_client
arrival = refl

network_update-IsSound_example :
    IsSound (record world { state = 1; network = grown three (record { sock = pos 7; id = [] }) })
network_update-IsSound_example =
    network_update-IsSound counters counters-Respects host (poll_of (pos 3)) world
      (record world { state = 1; network = grown three (record { sock = pos 7; id = [] }) })
      (omega arith) arrival

-- With the flag `from_server` the second client gets the text twice.
broadcast_repeats :
    broadcast host (r1 ∷ r2 ∷ r3 ∷ []) r1 3 (codes "hi") true
    ≡ Effect.send (pos 5) (codes "hi") ∷ (Effect.send (pos 6) (codes "hihi") ∷ [])
unfolding broadcast broadcast_to prefixed strncat write_client
broadcast_repeats = refl
