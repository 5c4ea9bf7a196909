-- ===== src/Tests/Main.antt =====
-- The controller starts, and a router connects that says nothing (controller/main.c).
use re203_projet_reseau.Prelude.{◌≡◌, refl, List, [], ◌∷◌, some, none, pos, ok, ◌==ℤ◌}
use re203_projet_reseau.Net.Sockets.{Os, init_server_connection, read_client}
use re203_projet_reseau.Net.Network.{
  Network, Status, network_is_opened, network_open, opened_on, add_client,
}
use re203_projet_reseau.Net.Update.{
  World, Poll, network_update, dispatch, is_set, is_client_socket, handle_connection,
}
use re203_projet_reseau.Net.Update.Invariant.{IsSound}
use re203_projet_reseau.Controller.Events.{
  controller_events, connection_event, up_to_last_star, connect_messages,
}
use re203_projet_reseau.Messages.Multiline.{multiline_parse, multiline_text, read_from, add_rest}
use re203_projet_reseau.Controller.Main.{exec_init, controller_port, opened_or_exit, network_loop}
use re203_projet_reseau.Controller.Main.Life.{controller_life-IsSound}
use re203_projet_reseau.Tests.{prefix_matcher}
use re203_projet_reseau.Tests.Controller.{listed, single, only_b, with, host, Ctl}
use re203_projet_reseau.Tests.Table.{configured}

abbrev opened : Network
opened = record { status = Status.opened; server = pos 3; max = pos 3; clients = [] }

controller_started : exec_init host configured ≡ ok opened
unfolding exec_init controller_port opened_or_exit network_open init_server_connection opened_on
controller_started = refl

abbrev connecting : Poll
connecting = record { ready = some (λ fd. fd ==ℤ pos 3); accept = pos 7; typed = []; stack_id = [] }

abbrev rounds : List (Os × Poll)
rounds = (host, connecting) ∷ []

abbrev connected : World Ctl
connected = record {
  state = with only_b;
  network = record opened { max = pos 7; clients = record { sock = pos 7; id = [] } ∷ [] };
  calls = [];
}

router_connects :
    network_loop listed single prefix_matcher
      (λ s. none)
      rounds
      (record { state = with only_b; network = opened; calls = [] })
    ≡ ok (some connected)
unfolding network_loop network_is_opened network_update dispatch is_set is_client_socket
    handle_connection read_client add_client controller_events connection_event multiline_parse
    multiline_text read_from up_to_last_star add_rest connect_messages
router_connects = refl

controller_life-IsSound_example : IsSound connected
controller_life-IsSound_example =
    controller_life-IsSound listed single prefix_matcher (λ s. none) host configured (with only_b)
      rounds opened connected controller_started router_connects
