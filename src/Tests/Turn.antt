-- ===== src/Tests/Turn.antt =====
-- A turn of the controller's main loop, from the bytes of a router to the answer.
use re203_projet_reseau.Prelude.{
  ◌≡◌, refl, true, [], ◌∷◌, some, none, codes, str_eq, pos, ok, ◌==ℤ◌,
}
use re203_projet_reseau.Messages.Print.{
  printed, out_buffer, read_buffer, print_text, print_as, print_neighborhood, write_buffer,
  to_string,
}
use re203_projet_reseau.Net.Sockets.{Effect, read_client, c_string, write_client, Os}
use re203_projet_reseau.Net.Network.{network_is_opened}
use re203_projet_reseau.Net.Update.{
  Poll, network_update, dispatch, is_set, is_client_socket, first_ready, handle_clients,
  handle_client, World,
}
use re203_projet_reseau.Controller.Graph.{node_named, set_up_to_date}
use re203_projet_reseau.Controller.Sock.{
  execute_on, execute, answer_poll, nothing_new, sock_message,
}
use re203_projet_reseau.Controller.Events.{
  message_event, client_messages, client_message, is_refused, copied, reply, send_to, after_send,
  is_bye, controller_events, up_to_last_star,
}
use re203_projet_reseau.Util.{strcopy, strcopy2}
use re203_projet_reseau.Messages.Escape.{
  treat_input, treat_input_bytes, strip_star, unescape_bytes, treat_output, treat_output_bytes,
  escape_bytes, escape_from,
}
use re203_projet_reseau.Messages.Multiline.{
  multiline_parse, multiline_text, read_from, add_line, add_rest, parse_line, clear_previous,
}
use re203_projet_reseau.Messages.Cases.{parse_plain}
use re203_projet_reseau.Messages.Parse.{parse, parse_text, parse_case, cases}
use re203_projet_reseau.Messages.Regexes.{first_match}
use re203_projet_reseau.Net.Sending.{network_send, send_framed}
use re203_projet_reseau.Tests.{prefix_matcher}
use re203_projet_reseau.Tests.Controller.{a, only_b, listed, single, with, Ctl, host, world}

-- A router that is up to date polls.
abbrev polling : Os
polling = record host { recv = λ s n. some (codes "poll*") }

abbrev ready_4 : Poll
ready_4 = record { ready = some (λ fd. fd ==ℤ pos 4); accept = pos 7; typed = []; stack_id = [] }

abbrev polled : World Ctl
polled = record world {
  state = with (set_up_to_date a true only_b);
  network = record world.network { clients = record { sock = pos 4; id = a } ∷ [] };
}

abbrev answered : World Ctl
answered = record polled { calls = Effect.send (pos 4) (codes "neighborhood ok*") ∷ [] }

poll_answered :
    network_update
      (controller_events listed single prefix_matcher (λ s. none) polling)
      polling
      ready_4
      polled
    ≡ ok (some answered)
unfolding network_update network_is_opened dispatch is_set is_client_socket first_ready
    handle_clients handle_client read_client c_string message_event up_to_last_star multiline_parse
    multiline_text read_from add_line add_rest parse_line clear_previous treat_input
    treat_input_bytes strip_star unescape_bytes parse parse_text parse_case cases parse_plain
    first_match client_messages client_message is_refused copied strcopy2 sock_message execute_on
    execute answer_poll node_named str_eq nothing_new reply to_string print_text print_as
    print_neighborhood write_buffer printed out_buffer read_buffer send_to network_send send_framed
    strcopy treat_output treat_output_bytes escape_bytes escape_from write_client after_send is_bye
    controller_events
poll_answered = refl
