-- ===== src/Tests/Start.antt =====
-- A router that starts and waits a turn (router/router.cpp).
use re203_projet_reseau.Prelude.{◌≡◌, refl, false, List, [], ◌∷◌, some, codes, pos, ok, ℕ}
use re203_projet_reseau.Net.Sockets.{
  Os, Effect, init_server_connection, init_client_connection, write_client,
}
use re203_projet_reseau.Net.Network.{
  Status, network_is_opened, network_open, network_connect, add_client, opened_on,
}
use re203_projet_reseau.Net.Update.{
  World, Poll, network_update, dispatch, is_set, is_client_socket, handle_clients, first_ready,
}
use re203_projet_reseau.Net.Update.Invariant.{IsSound}
use re203_projet_reseau.Libc.Decimal.{show_int, digits}
use re203_projet_reseau.Util.{strcopy, strcopy2}
use re203_projet_reseau.Messages.Print.{
  printed, out_buffer, read_buffer, to_string, print_text, print_as, print_login, write_buffer,
}
use re203_projet_reseau.Messages.Escape.{
  treat_output, treat_output_bytes, escape_bytes, escape_from,
}
use re203_projet_reseau.Net.Client.{client_set_id}
use re203_projet_reseau.Net.Sending.{network_send, send_framed}
use re203_projet_reseau.Router.SockActions.{login, send, send_to}
use re203_projet_reseau.Router.Table.{ClientPointer}
use re203_projet_reseau.Router.State.{Router, setting, name_client, client_at, put_client}
use re203_projet_reseau.Router.Start.{
  new_router, start, main_loop, open_server, served, address_of, reach_controller,
  log_in_if_reached, log_in,
}
use re203_projet_reseau.Router.Start.Life.{router_life-IsSound}
use re203_projet_reseau.Tests.{prefix_matcher}
use re203_projet_reseau.Tests.Controller.{host}
use re203_projet_reseau.Tests.Table.{configured}

-- The system reaches the controller, on the second attempt, on the socket 4.
abbrev reaching : Os
reaching = record host { socket = pos 4; gethostbyname = λ s. some 1 }

abbrev started : World Router
started = record {
  state = record (new_router (codes "A") configured) { controller = ClientPointer.in_array 0 };
  network = record {
    status = Status.opened;
    server = pos 3;
    max = pos 4;
    clients = record { sock = pos 4; id = codes "controlleur" } ∷ [];
  };
  calls = Effect.send (pos 4) (codes "log in as A port 5000*") ∷ [];
}

router_started : start host [] (host ∷ reaching ∷ []) (codes "A") configured ≡ ok (some started)
unfolding start setting open_server served network_open init_server_connection address_of
    reach_controller network_connect init_client_connection add_client opened_on log_in_if_reached
    log_in name_client client_at client_set_id login send send_to put_client to_string print_text
    print_as print_login write_buffer printed out_buffer read_buffer show_int digits network_send
    send_framed strcopy treat_output treat_output_bytes escape_bytes escape_from write_client
    new_router strcopy2
router_started = refl

-- A turn in which nothing is ready.
abbrev quiet : Poll
quiet = record { ready = some (λ fd. false); accept = pos 7; typed = []; stack_id = [] }

abbrev rounds : List (Os × Poll × ℕ)
rounds = (host, quiet, 0) ∷ []

router_waits : main_loop prefix_matcher [] rounds started ≡ ok (some started)
unfolding main_loop network_is_opened network_update dispatch is_set is_client_socket handle_clients
    first_ready
router_waits = refl

router_life-IsSound_example : IsSound started
router_life-IsSound_example =
    router_life-IsSound prefix_matcher [] host (host ∷ reaching ∷ []) (codes "A") configured rounds
      started started router_started router_waits
