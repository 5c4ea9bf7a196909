-- ===== src/Router/Events/Invariant.antt =====
-- The invariant of the router (router/): its network is sound.
use mathlib.Core.Path.{subst}
use re203_projet_reseau.Net.Update.Invariant.{Respects, YieldsBoth, network_update-IsSound}
use re203_projet_reseau.Net.Update.{Poll, network_update}
use re203_projet_reseau.Net.Network.{network_close}
use re203_projet_reseau.Prelude.{
  codes, Bool-cases, ℕ, ◌≡◌, Bool, List, [], ◌∷◌, Option, none, some, Str, Outcome, ok, fault,
  get_elem?, length-set, ◌≤ℤ◌, arith, inl, inr, str_eq,
}
use re203_projet_reseau.Messages.Types.{Message}
use re203_projet_reseau.Messages.Multiline.{multiline_parse}
use re203_projet_reseau.Messages.Print.{to_string}
use re203_projet_reseau.Net.Client.{Client}
use re203_projet_reseau.Net.Sockets.{Os}
use re203_projet_reseau.Net.Network.Watched.{add_client-IsWatched}
use re203_projet_reseau.Net.Update.{World, Poll, network_update}
use re203_projet_reseau.Net.Update.Invariant.{
  IsSound, Respects, Yields, YieldsBoth, sound, stops, network_update-IsSound,
}
use re203_projet_reseau.Controller.Events.Keeping.{Below-get, Below-set}
use re203_projet_reseau.Router.Table.{ClientPointer}
use re203_projet_reseau.Router.State.{Router, client_at, put_client}
use re203_projet_reseau.Router.Exec.{sock_message}
use re203_projet_reseau.Router.Events.{
  controller_id, router_events, message, input, disconnect, handle_messages, input, connect,
  disconnect, message, connect_messages, client_messages, router_events, controller_id,
}
use re203_projet_reseau.Router.Events.Stable.{Stable, Keeps, Keeps-chain, Keeps-bind, Keeps-if}
use re203_projet_reseau.Router.Events.Received.{sock_message-Keeps}

client_at-array :
    (w : World Router) (i : ℕ) (c : Client)
    → client_at w (ClientPointer.in_array i) ≡ ok c
    → get_elem? w.network.clients i ≡ some c
unfolding client_at
client_at-array w i c e = ground arith

put_client-IsSound :
    (w : World Router) (p : ClientPointer) (c d : Client)
    → client_at w p ≡ ok c
    → d.sock ≡ c.sock
    → IsSound w
    → IsSound (put_client w p d)
unfolding put_client
put_client-IsSound w ClientPointer.null c d e same h = h
put_client-IsSound w ClientPointer.local c d e same h = h
put_client-IsSound w (ClientPointer.in_array i) c d e same h =
    let below = Below-get w.network.max w.network.clients i c h.0.1 (client_at-array w i c e) in
    let le : d.sock ≤ℤ w.network.max = rw same below in
    (
      (h.0.0, Below-set w.network.max w.network.clients i d h.0.1 le),
      omega (arith, length-set w.network.clients i d, h.1),
    )

-- Every write of the router's functions keeps the invariant.
pub IsSound-Stable : Stable IsSound
IsSound-Stable = record {
  on_state = λ w s e h. h;
  on_calls = λ w calls h. h;
  on_put = λ w k e h. h;
  on_clear = λ w h. h;
  on_client = λ w p c d e same h. put_client-IsSound w p c d e same h;
  on_connect = λ w net c e h. add_client-IsWatched w.network net c h.0 e;
}

pub Keeps-ok : {A : Type 0} (P : A → Type 0) (m : Outcome A) (a : A) → Keeps P m → m ≡ ok a → P a
Keeps-ok P (ok b) a k e = let same : b ≡ a = cc e in subst P same k
Keeps-ok P (fault f) a k e = cc e

Keeps-Yields : (m : Outcome (World Router)) → Keeps IsSound m → Yields m
Keeps-Yields (ok w) h = sound h
Keeps-Yields (fault e) h = stops

module _ (trex_match : Str → Str → Bool) (os : Os) (stack_id : Str) (now : ℕ) where
  connect_messages-Keeps :
      (ms : List (Option Message)) (w : World Router) (c : ClientPointer)
      → IsSound w
      → Keeps IsSound (connect_messages trex_match os stack_id now w c ms)
  unfolding connect_messages
  connect_messages-Keeps [] w c h = h
  connect_messages-Keeps (none ∷ ms) w c h = connect_messages-Keeps ms w c h
  connect_messages-Keeps (some m ∷ ms) w c h =
      Keeps-chain IsSound IsSound (sock_message os stack_id now w (some m) c) _
        (sock_message-Keeps IsSound IsSound-Stable os stack_id now w (some m) c h)
        (λ w1 q. connect_messages-Keeps ms w1 c q)

  client_messages-Keeps :
      (ms : List (Option Message)) (w : World Router) (c : ClientPointer)
      → IsSound w
      → Keeps IsSound (client_messages trex_match os stack_id now w c ms)
  unfolding client_messages
  client_messages-Keeps [] w c h = h
  client_messages-Keeps (none ∷ ms) w c h = client_messages-Keeps ms w c h
  client_messages-Keeps (some m ∷ ms) w c h = Keeps-bind IsSound (to_string (some m)) _ (λ tmp e.
      Keeps-chain IsSound IsSound (sock_message os stack_id now w (some m) c) _
        (sock_message-Keeps IsSound IsSound-Stable os stack_id now w (some m) c h)
        (λ w1 q. client_messages-Keeps ms w1 c q))

  connect-Keeps :
      (w : World Router) (i : ℕ) (buffer : Str)
      → IsSound w
      → Keeps IsSound (connect trex_match os stack_id now w i buffer)
  unfolding connect
  connect-Keeps w i buffer h =
      Keeps-bind IsSound (multiline_parse trex_match (some buffer)) _ (λ r e. either r.0)
    where
      either :
          (o : Option (List (Option Message)))
          → Keeps IsSound (elim o [
            | none ↦ ok w
            | some ms ↦ connect_messages trex_match os stack_id now w (ClientPointer.in_array i) ms
          ])
      either none = h
      either (some ms) = connect_messages-Keeps ms w (ClientPointer.in_array i) h

  handle_messages-Keeps :
      (o : Option (List (Option Message))) (w : World Router) (client : Client)
      → IsSound w
      → Keeps IsSound (handle_messages trex_match os stack_id now w client o)
  unfolding handle_messages
  handle_messages-Keeps none w client h = h
  handle_messages-Keeps (some ms) w client h = client_messages-Keeps ms _ ClientPointer.local h

  message-Keeps :
      (w : World Router) (client : Client) (buffer : Str)
      → IsSound w
      → Keeps IsSound (message trex_match os stack_id now w client buffer)
  unfolding message
  message-Keeps w client buffer h =
      Keeps-bind IsSound (multiline_parse trex_match (some buffer)) _ (λ r e.
        Keeps-chain IsSound IsSound (handle_messages trex_match os stack_id now w client r.0) _
          (handle_messages-Keeps r.0 w client h) (λ w1 q. q))

  input-Keeps : (w : World Router) (buffer : Str) → IsSound w → Keeps IsSound (input os w buffer)
  unfolding input network_close
  input-Keeps w buffer h =
      Keeps-if IsSound (str_eq buffer (codes "quit")) _ _ h
        (Keeps-bind IsSound (client_at w (ClientPointer.in_array 0)) _ (λ c e. h))

  disconnect-Keeps : (w : World Router) (c : Client) → IsSound w → YieldsBoth (disconnect w c)
  unfolding disconnect
  disconnect-Keeps w c h = elim (Bool-cases (str_eq c.id controller_id)) [
    | inl gone ↦ rw (disconnect, gone) tt
    | inr other ↦ rw (disconnect, other) h
  ]

  router_events-Respects : Respects (router_events trex_match os stack_id now)
  unfolding router_events
  router_events-Respects = record {
    on_input = λ w s h. Keeps-Yields (input os w s) (input-Keeps w s h);
    on_connection =
        λ w i s h. Keeps-Yields (connect trex_match os stack_id now w i s) (connect-Keeps w i s h);
    on_disconnection = disconnect-Keeps;
    on_message =
        λ w c s h. Keeps-Yields (message trex_match os stack_id now w c s) (message-Keeps w c s h);
  }

  -- One turn of a router's main loop keeps the invariant of its network, whatever the system answers and
  -- whatever the controller and the other routers send: when the process goes on, `max` bounds the
  -- server's and every client's socket, and the array holds 100 clients at most.
  pub router-IsSound :
      (host : Os) (poll : Poll) (w w' : World Router)
      → IsSound w
      → network_update (router_events trex_match os stack_id now) host poll w ≡ ok (some w')
      → IsSound w'
  router-IsSound host poll w w' h e =
      network_update-IsSound (router_events trex_match os stack_id now) router_events-Respects host
        poll w w' h e
