-- ===== src/Router/Events.antt =====
-- router/event.cpp: the event functions of the router, which `network__update` calls, and the rounds of
-- the threads of router/router.cpp and router/exec.cpp.
pub mod Sending
pub mod Listed
pub mod Received
pub mod Invariant
pub mod Stable
pub mod Stale
use re203_projet_reseau.Prelude.{
  not, ℕ, Bool, ◌&&◌, List, [], ◌∷◌, ◌++◌, none, some, Option, Str, str_eq, codes, if◌then◌else◌, ℤ,
  ltb_ℤ, Outcome, ok, fault, dangling, exited, ◌>>=◌,
}
use re203_projet_reseau.Messages.Types.{Message}
use re203_projet_reseau.Messages.Print.{to_string}
use re203_projet_reseau.Messages.Multiline.{multiline_parse}
use re203_projet_reseau.Net.Client.{Client}
use re203_projet_reseau.Net.Sockets.{Os}
use re203_projet_reseau.Net.Network.{network_close}
use re203_projet_reseau.Net.Sending.{network_send}
use re203_projet_reseau.Net.Update.{World, Events}
use re203_projet_reseau.Router.Table.{Entry, ClientPointer, RouteTable}
use re203_projet_reseau.Router.State.{Router, with_table, with_exec, client_at, setting, increment}
use re203_projet_reseau.Router.SockActions.{poll, vector}
use re203_projet_reseau.Router.Exec.{sock_message}

-- `controlleur`, the name that the router gives to its connection to the controller.
abbrev pub controller_id : Str
controller_id = codes "controlleur"

-- `Event::input`; an empty array has no first client.
unfoldable pub input : Os → World Router → Str → Outcome (World Router)
input os w buffer =
    if str_eq buffer (codes "quit")
    then ok (record w {
      network = (network_close w.network).0;
      calls = w.calls ++ (network_close w.network).1;
    })
    else client_at w (ClientPointer.in_array 0) >>= λ c.
        ok (record w { calls = w.calls ++ (network_send os c (some buffer)).1 })

-- `Event::disconnect`: the process exits when the controller is gone.
unfoldable pub disconnect : World Router → Client → Outcome (World Router × Client)
disconnect w c = if str_eq c.id controller_id then fault exited else ok (w, c)

module _ (trex_match : Str → Str → Bool) (os : Os) (stack_id : Str) (now : ℕ) where
  -- The loop of `Event::connect`.
  unfoldable pub connect_messages :
      World Router → ClientPointer → List (Option Message) → Outcome (World Router)
  connect_messages w c [] = ok w
  connect_messages w c (none ∷ ms) = connect_messages w c ms
  connect_messages w c (some m ∷ ms) = do
    w1 ← sock_message os stack_id now w (some m) c
    connect_messages w1 c ms

  -- `Event::connect`
  unfoldable pub connect : World Router → ℕ → Str → Outcome (World Router)
  connect w i buffer = do
    r ← multiline_parse trex_match (some buffer)
    elim r.0 [ none ↦ ok w | some ms ↦ connect_messages w (ClientPointer.in_array i) ms ]

  -- The loop of `Event::message`, which prints each message to a text that it frees.
  unfoldable pub client_messages :
      World Router → ClientPointer → List (Option Message) → Outcome (World Router)
  client_messages w c [] = ok w
  client_messages w c (none ∷ ms) = client_messages w c ms
  client_messages w c (some m ∷ ms) = do
    tmp ← to_string (some m)
    w1 ← sock_message os stack_id now w (some m) c
    client_messages w1 c ms

  -- What is parsed is a list of messages or NULL. The loop has the variable `client` of
  -- `network__update`.
  unfoldable pub handle_messages :
      World Router → Client → Option (List (Option Message)) → Outcome (World Router)
  handle_messages w client none = ok w
  handle_messages w client (some ms) =
      client_messages (record w { state = record w.state { client = some client } })
        ClientPointer.local ms

  -- `Event::message`; the variable `client` ends with `network__update`.
  unfoldable pub message : World Router → Client → Str → Outcome (World Router)
  message w client buffer = do
    r ← multiline_parse trex_match (some buffer)
    w1 ← handle_messages w client r.0
    ok (record w1 { state = record w1.state { client = none } })

  -- The constructor of `Router` sets these four.
  unfoldable pub router_events : Events Router
  router_events = record {
    input_event = input os;
    connection_event = connect;
    disconnection_event = disconnect;
    message_event = message;
  }

-- A round of `controllerLoop`.
unfoldable pub controller_round : Os → World Router → Outcome (World Router)
controller_round os w = poll os w

-- What is read through the result of `RouteTable::vector`: the text `vector_text` is gone when the
-- function returns.
unfoldable pub read_vector : RouteTable → Str → Outcome Str
read_vector t client = fault dangling

unfoldable pub send_vector : Os → World Router → Str → Entry → Outcome (World Router)
send_vector os w k e =
    if not (e.is_neighbor && e.is_complete)
    then ok w
    else do vect ← read_vector w.state.table k; vector os w k (some vect)

-- A round of `routerLoop` over the entries from some on.
unfoldable pub send_vectors : Os → World Router → RouteTable → Outcome (World Router)
send_vectors os w [] = ok w
send_vectors os w ((k, e) ∷ t) = do w1 ← send_vector os w k e; send_vectors os w1 t

unfoldable pub router_round : Os → World Router → Outcome (World Router)
router_round os w = send_vectors os w w.state.table

-- A round of `timeChecker` over the messages that wait for an answer, and over the entries. Both loops
-- go on from an iterator that they have erased.
unfoldable pub check_messages : ℤ → List (ℤ × ℤ) → Outcome (List (ℤ × ℤ))
check_messages timeout [] = ok []
check_messages timeout ((k, n) ∷ m) = do
  n' ← increment n
  if ltb_ℤ timeout n'
      then fault dangling
      else do rest ← check_messages timeout m; ok ((k, n') ∷ rest)

unfoldable pub check_entries : ℤ → RouteTable → Outcome RouteTable
check_entries timeout [] = ok []
check_entries timeout ((k, e) ∷ t) = do
  n ← increment e.seconds_inactive
  if ltb_ℤ timeout n && e.is_complete
      then fault dangling
      else do rest ← check_entries timeout t; ok ((k, record e { seconds_inactive = n }) ∷ rest)

unfoldable pub check_times : World Router → Outcome (World Router)
check_times w = do
  packet_timeout ← setting w.state.config.default_packet_timeout_value
  dv_timeout ← setting w.state.config.default_dv_timeout_value
  times ← check_messages packet_timeout w.state.exec.message_times
  t ← check_entries dv_timeout w.state.table
  ok (with_table (with_exec w (record w.state.exec { message_times = times })) t)
