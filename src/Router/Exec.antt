-- ===== src/Router/Exec.antt =====
-- router/exec.cpp: `Exec::sock_message`, what the router does with a message. `now` is the reading of the
-- clock.
pub mod Endless
pub mod Forward
pub mod Transit
pub mod Handed
use re203_projet_reseau.Prelude.{
  ℕ, ◌-◌, ◌%◌, ◌^◌, Bool, true, false, not, ◌||◌, none, some, Option, Str, str_eq, ltb,
  if◌then◌else◌, ℤ, pos, negsuc, ◌+ℤ◌, ◌==ℤ◌, ltb_ℤ, Outcome, ok, fault, uncaught, deref, ◌>>=◌,
}
use re203_projet_reseau.Libc.Decimal.{int_max}
use re203_projet_reseau.Messages.Types.{Acceptance, MessageType, Message, get_and_dec_ttl}
use re203_projet_reseau.Net.Sockets.{Os}
use re203_projet_reseau.Net.Update.{World}
use re203_projet_reseau.Router.Table.{ClientPointer, Entry, new_entry, assigned, find, put, modify}
use re203_projet_reseau.Router.State.{
  Router, Exec, Notice, with_table, with_exec, show, client_at, name_client, setting, increment,
  lookup, erase,
}
use re203_projet_reseau.Router.SockActions.{forward, reverse, link_ack, vector_ack}
use re203_projet_reseau.Router.Vector.{add_int, parse_vector}
use re203_projet_reseau.Router.Neighborhood.{parse_neighborhood}

-- No function above `sock_message` has a handler for `UnknownDest`.
unfoldable pub not_caught : World Router × Bool → Outcome (World Router)
not_caught (w, false) = ok w
not_caught (w, true) = fault uncaught

unfoldable pub is_ok : Acceptance → Bool
is_ok Acceptance.ok = true
is_ok _ = false

unfoldable pub is_not : Acceptance → Bool
is_not Acceptance.not = true
is_not _ = false

unfoldable pub is_ttlzero : Acceptance → Bool
is_ttlzero Acceptance.ttlzero = true
is_ttlzero _ = false

-- The entry that a `link` makes, until the controller gives its distance.
unfoldable pub link_entry : Str → ClientPointer → Entry
link_entry s t = record (assigned (new_entry s s (negsuc int_max))) {
  client = t;
  is_neighbor = true;
}

-- A number of milliseconds as an `int`.
unfoldable pub to_int : ℕ → ℤ
to_int n = let r = n % 2 ^ 32 in if ltb r (2 ^ 31) then pos r else negsuc (2 ^ 32 - r - 1)

-- `hdclock::now () - pingTimeTables[seqnum]`; a number that is not there has the clock's epoch.
unfoldable pub ping_duration : ℕ → Exec → ℤ → ℤ
unfolding to_int
ping_duration now x seqnum = elim (lookup seqnum x.ping_time_tables) [
  | none ↦ to_int now
  | some start ↦ to_int (now - start)
]

-- The greatest and the least time: the test for the least stands behind an `else`.
unfoldable pub time_seen : ℤ → Exec → Exec
time_seen ms x =
    if ltb_ℤ x.ping_max ms
    then record x { ping_max = ms }
    else if ltb_ℤ ms x.ping_min
    then record x { ping_min = ms }
    else x

unfoldable pub ping_finished : World Router → Outcome (World Router)
ping_finished w = do
  count ← setting w.state.config.default_ping_packet_count
  let x = w.state.exec
  ok (
      with_exec (show w (Notice.ping_result x.ping_succ count x.ping_min x.ping_max x.ping_avg))
        (record x { ping_min = pos int_max; ping_max = negsuc int_max; ping_avg = pos 0 }))

-- The exec's counters behind the answer to a ping that took `ms`.
unfoldable pub ping_counted : Exec → Message → ℤ → ℤ → Exec
ping_counted x m succ avg = record x {
  ping_succ = succ;
  ping_avg = avg;
  ping_count = x.ping_count +ℤ negsuc 0;
  ping_time_tables = erase m.seqnum x.ping_time_tables;
}

unfoldable pub ping_checked : World Router → Outcome (World Router)
ping_checked w = if w.state.exec.ping_count ==ℤ pos 0 then ping_finished w else ok w

-- The answer to a ping, while the router waits for some.
unfoldable pub ping_answered : ℕ → World Router → Message → Outcome (World Router)
ping_answered now w m = do
  node1 ← deref m.node1
  node2 ← deref m.node2
  let ms = ping_duration now w.state.exec m.seqnum
  let x = time_seen ms w.state.exec
  succ ← increment x.ping_succ
  avg ← add_int x.ping_avg ms
  ping_checked (with_exec (show w (Notice.ping_echo node2 node1 ms)) (ping_counted x m succ avg))

unfoldable pub target_reached : ℕ → World Router → World Router
target_reached now w =
    with_exec
      (show w (Notice.route_result w.state.exec.route_count (now - w.state.exec.route_time)))
      (record w.state.exec { is_waiting_for_route = false })

-- The answer of one hop of a route.
unfoldable pub hop_answered : ℕ → World Router → Message → Outcome (World Router)
hop_answered now w m = do
  node1 ← deref m.node1
  dest ← deref w.state.exec.route_dest
  count ← increment w.state.exec.route_count
  let w1 =
      with_exec (show w (Notice.route_hop count node1))
        (record w.state.exec { route_count = count })
  ok (if str_eq dest node1 then target_reached now w1 else w1)

unfoldable pub pong_for_us : ℕ → World Router → Message → Outcome (World Router)
pong_for_us now w m =
    if ltb_ℤ (pos 0) w.state.exec.ping_count
    then ping_answered now w m
    else if w.state.exec.is_waiting_for_route
    then hop_answered now w m
    else ok w

module _ (os : Os) (stack_id : Str) (now : ℕ) where
  unfoldable pub forward_or :
      Bool
      → World Router
      → Message
      → (World Router → Message → Outcome (World Router))
      → Outcome (World Router)
  forward_or true w m expired = forward os w m >>= not_caught
  forward_or false w m expired = expired w m

  -- `mess__getAndDecTTL (m) != 0 || m->accept == TTLZERO`: the message goes on; otherwise `expired`.
  unfoldable pub transit :
      World Router
      → Message
      → (World Router → Message → Outcome (World Router))
      → Outcome (World Router)
  transit w m expired = do
    r ← get_and_dec_ttl (some m)
    m' ← deref r.1
    forward_or (not (r.0 ==ℤ pos 0) || is_ttlzero m'.accept) w m' expired

  unfoldable pub answer : World Router → Message → Outcome (World Router)
  answer w m = reverse os w m >>= not_caught

  -- A packet for this router: an acknowledgement, a failure, or data, which is acknowledged.
  unfoldable pub packet_as : World Router → Message → Acceptance → Outcome (World Router)
  packet_as w m Acceptance.ok = ok (
      show
        (with_exec w
          (record w.state.exec { message_times = erase m.seqnum w.state.exec.message_times }))
        (Notice.mess_deliv (now - w.state.exec.message_time)))
  packet_as w m Acceptance.toofar = ok (show w Notice.err_unreachable)
  packet_as w m _ = do
    w1 ← answer w (record m { accept = Acceptance.ok })
    ok (show w1 (Notice.mess_received m.s_parameter))

  unfoldable pub packet_for_us : World Router → Message → Outcome (World Router)
  packet_for_us w m = packet_as w m m.accept

  unfoldable pub packet_expired : World Router → Message → Outcome (World Router)
  packet_expired w m = answer w (record m { accept = Acceptance.toofar })

  unfoldable pub ping_for_us : World Router → Message → Outcome (World Router)
  ping_for_us w m = answer w (record m { type = MessageType.pong })

  -- The pong names this router as its source.
  unfoldable pub ping_expired : World Router → Message → Outcome (World Router)
  ping_expired w m =
      answer w (record m {
        type = MessageType.pong;
        accept = Acceptance.ttlzero;
        node2 = some w.state.name;
      })

  -- `strcmp (m->node2, router->getName ()) == 0`
  unfoldable pub is_for_us : World Router → Message → Outcome Bool
  is_for_us w m = do node2 ← deref m.node2; ok (str_eq node2 w.state.name)

  unfoldable pub receive_packet : World Router → Message → Outcome (World Router)
  receive_packet w m = do
    ours ← is_for_us w m
    if ours then packet_for_us w m else transit w m packet_expired

  unfoldable pub receive_ping : World Router → Message → Outcome (World Router)
  receive_ping w m = do
    ours ← is_for_us w m
    if ours then ping_for_us w m else transit w m ping_expired

  unfoldable pub receive_pong : World Router → Message → Outcome (World Router)
  receive_pong w m = do
    ours ← is_for_us w m
    if ours then pong_for_us now w m else transit w m (λ w1 m1. ok w1)

  -- The entry of a router that asks for a link, if it is new.
  unfoldable pub add_link :
      World Router → Str → ClientPointer → Option Entry → Outcome (World Router)
  add_link w s t (some e) = ok w
  add_link w s t none = do
    w2 ← name_client w t s
    ok (with_table w2 (put s (link_entry s t) w2.state.table))

  -- Another router asks for a link.
  unfoldable pub receive_link : World Router → Message → ClientPointer → Outcome (World Router)
  receive_link w m t =
      if is_ok m.accept
      then ok w
      else do s ← deref m.node1; w1 ← add_link w s t (find s w.state.table); link_ack os w1 t

  -- The vector of the router `id`.
  unfoldable pub read_vector : World Router → Message → Str → Outcome (World Router)
  read_vector w m id = if is_ok m.accept then ok w else do
    table ← parse_vector w.state.name w.state.table m.s_parameter id
    vector_ack os (with_table w table) id

  unfoldable pub receive_vector : World Router → Message → ClientPointer → Outcome (World Router)
  receive_vector w m t = do
    c ← client_at w t
    w1 ← read_vector w m c.id
    ok (with_table w1 (modify c.id (λ e. record e { seconds_inactive = pos 0 }) w1.state.table))

  unfoldable pub greeted : World Router → Message → Outcome (World Router)
  greeted w m = do
    name ← deref m.node1
    ok (show (record w { state = record w.state { name = name } }) (Notice.login_message name))

  unfoldable pub receive :
      World Router → Message → ClientPointer → MessageType → Outcome (World Router)
  receive w m t MessageType.none = ok w
  receive w m t MessageType.greeting = greeted w m
  receive w m t MessageType.neighborhood =
      if is_not m.accept then parse_neighborhood os stack_id w m.s_parameter else ok w
  receive w m t MessageType.bye = ok (record w { state = record w.state { is_running = false } })
  receive w m t MessageType.link = receive_link w m t
  receive w m t MessageType.vector = receive_vector w m t
  receive w m t MessageType.packet = receive_packet w m
  receive w m t MessageType.ping = receive_ping w m
  receive w m t MessageType.pong = receive_pong w m
  receive w m t _ = ok (show w Notice.not_recognised)

  -- `sock_message`
  unfoldable pub sock_message :
      World Router → Option Message → ClientPointer → Outcome (World Router)
  sock_message w none t = ok w
  sock_message w (some m) t = receive w m t m.type
