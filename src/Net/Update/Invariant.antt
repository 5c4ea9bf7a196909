-- ===== src/Net/Update/Invariant.antt =====
-- The invariant of the network object over a turn of `network__update` (common/net.c).
use mathlib.Core.Path.{subst}
use re203_projet_reseau.Prelude.{
  bind-eq-ok, Fault, ℕ, ◌≡◌, refl, Bool, true, false, Option, none, some, Str, length,
  if◌then◌else◌, ℤ, pos, ◌==ℤ◌, Outcome, ok, fault, ◌>>=◌, bind-eq-ok,
}
use re203_projet_reseau.Net.Client.{Client}
use re203_projet_reseau.Net.Sockets.{Os, read_client, socket_error}
use re203_projet_reseau.Net.Network.{
  Network, network_is_opened, add_client, remove_client, get_client_id, network_disconnect,
}
use re203_projet_reseau.Net.Network.Watched.{
  IsWatched, Fits, add_client-IsWatched, remove_at-IsWatched,
}
use re203_projet_reseau.Net.Update.{
  World, Events, Poll, is_set, handle_input, handle_connection, handle_client, handle_clients,
  disconnect_in, dispatch, network_update,
}

-- The invariant of `network__update`: `max` covers all sockets and the array holds 100 clients.
abbrev pub IsSound : {S : Type 0} → World S → Type 0
IsSound w = IsWatched w.network × Fits w.network

-- A result, if there is one, is sound.
pub data Yields {S : Type 0} : Outcome (World S) → Type 0 where
  sound : {w : World S} → IsSound w → Yields (ok w)
  stops : {e : Fault} → Yields (fault e)

abbrev pub YieldsBoth : {S : Type 0} → Outcome (World S × Client) → Type 0
YieldsBoth (ok (w, c)) = IsSound w
YieldsBoth (fault e) = Unit

-- The event functions keep the invariant.
pub record Respects {S : Type 0} (events : Events S) : Type 0 where
  pub on_input : (w : World S) (s : Str) → IsSound w → Yields (events.input_event w s)
  pub on_connection :
      (w : World S) (i : ℕ) (s : Str) → IsSound w → Yields (events.connection_event w i s)
  pub on_disconnection :
      (w : World S) (c : Client) → IsSound w → YieldsBoth (events.disconnection_event w c)
  pub on_message :
      (w : World S) (c : Client) (s : Str) → IsSound w → Yields (events.message_event w c s)

Yields-if :
    {S : Type 0} (b : Bool) (x y : Outcome (World S))
    → Yields x
    → Yields y
    → Yields (if b then x else y)
Yields-if true x y p q = p
Yields-if false x y p q = q

Yields-network :
    {S : Type 0} (m : Outcome Network) (k : Network → Outcome (World S))
    → ((net : Network) → m ≡ ok net → Yields (k net))
    → Yields (m >>= k)
Yields-network (ok net) k f = f net refl
Yields-network (fault e) k f = stops

Yields-ok : {S : Type 0} (w : World S) (m : Outcome (World S)) → Yields m → m ≡ ok w → IsSound w
Yields-ok w (ok v) (sound s) e = let same : v ≡ w = cc e in subst IsSound same s
Yields-ok w (fault x) y e = cc

turn-IsSound :
    {S : Type 0} (w w' : World S) (opened : Bool) (r : Option (ℤ → Bool))
    (d : (ℤ → Bool) → Outcome (World S))
    → ((ready : ℤ → Bool) → Yields (d ready))
    → IsSound w
    → (if opened
        then elim r [ none ↦ ok none | some ready ↦ d ready >>= (λ v. ok (some v)) ]
        else ok (some w))
      ≡ ok (some w')
    → IsSound w'
turn-IsSound w w' false r d y s e = let same : w ≡ w' = cc e in subst IsSound same s
turn-IsSound w w' true none d y s e = cc e
turn-IsSound w w' true (some ready) d y s e =
    let (v, f, g) = bind-eq-ok (d ready) _ e in
    let same : v ≡ w' = cc g in subst IsSound same (Yields-ok v (d ready) (y ready) f)

module _ {S : Type 0} (events : Events S) (respects : Respects events) (os : Os) (poll : Poll) where
  handle_input-Yields : (w : World S) → IsSound w → Yields (handle_input events os poll w)
  unfolding handle_input
  handle_input-Yields w s = Yields-if _ _ _ (respects.on_input w poll.typed s) stops

  handle_connection-Yields : (w : World S) → IsSound w → Yields (handle_connection events os poll w)
  unfolding handle_connection
  handle_connection-Yields w s =
      let c : Client = record { sock = poll.accept; id = poll.stack_id } in
      let (n, buffer) = read_client os poll.accept in
      let index = length w.network.clients in
      let added =
        Yields-network (add_client w.network c)
          (λ net. events.connection_event (record w { network = net }) index buffer)
          (λ net e.
            respects.on_connection (record w { network = net }) index buffer
              (add_client-IsWatched w.network net c s.0 e)) in
      Yields-if (poll.accept ==ℤ socket_error) (ok w) _ (sound s)
        (Yields-if (pos n ==ℤ socket_error) (ok w) _ (sound s) added)

  disconnect_in-Yields :
      (m : Outcome (World S × Client))
      → YieldsBoth m
      → Yields (m >>= λ r. ok (disconnect_in events os poll r))
  unfolding disconnect_in network_disconnect remove_client
  disconnect_in-Yields (ok (w, c)) s =
      sound (remove_at-IsWatched w.network (get_client_id w.network c) s.0 s.1)
  disconnect_in-Yields (fault e) s = stops

  handle_client-Yields :
      (w : World S) (o : Option Client) → IsSound w → Yields (handle_clients events os poll w o)
  unfolding handle_clients handle_client
  handle_client-Yields w none s = sound s
  handle_client-Yields w (some c) s =
      Yields-if _ _ _
        (disconnect_in-Yields (events.disconnection_event w c) (respects.on_disconnection w c s))
        (respects.on_message w c _ s)

  dispatch-Yields :
      (w : World S) (set : ℤ → Bool) → IsSound w → Yields (dispatch events os poll w set)
  unfolding dispatch
  dispatch-Yields w set s =
      Yields-if _ _ _ (handle_input-Yields w s)
        (Yields-if _ _ _ (handle_connection-Yields w s) (handle_client-Yields w _ s))

  -- If the event functions keep the invariant, so does a turn, whatever the system answers: when the
  -- process goes on, `max` bounds the server's and every client's socket, and the array holds 100
  -- clients at most.
  pub network_update-IsSound :
      (w w' : World S) → IsSound w → network_update events os poll w ≡ ok (some w') → IsSound w'
  unfolding network_update dispatch
  network_update-IsSound w w' s e =
      turn-IsSound w w' (network_is_opened w.network) poll.ready
        (λ ready. dispatch events os poll w (is_set w.network ready))
        (λ ready. dispatch-Yields w (is_set w.network ready) s) s e
