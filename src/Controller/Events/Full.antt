-- ===== src/Controller/Events/Full.antt =====
-- A router that logs in to the controller (controller/net_functions.c) when every node is taken.
use re203_projet_reseau.Prelude.{
  if◌then◌else◌, Fault, ok, Outcome, ap, ◌∙◌, ◌>>=◌, Bool, [], ◌≡◌, refl, ℕ, false, not, ◌&&◌,
  Option, some, Str, get_elem?, ℤ, fault, uninitialised,
}
use re203_projet_reseau.Messages.Types.{MessageType, Message}
use re203_projet_reseau.Messages.Print.{
  print_as, print_text, out_buffer, to_string, read_buffer, printed,
}
use re203_projet_reseau.Net.Client.{Client, SocketName, client_set_id, client_get_address}
use re203_projet_reseau.Net.Sockets.{Os}
use re203_projet_reseau.Net.Update.{World}
use re203_projet_reseau.Controller.Graph.{Library}
use re203_projet_reseau.Controller.Table.{HashTable}
use re203_projet_reseau.Controller.Sock.{Controller}
use re203_projet_reseau.Controller.Sock.Login.{AllConnected, sock_message-login_full}
use re203_projet_reseau.Controller.Events.{copied, client_at, is_none, greet, connect_message}

-- The text of a message of type `NONE` is in no buffer.
printed-none : (m : Message) → m.type ≡ MessageType.none → printed (some m) ≡ fault uninitialised
unfolding printed to_string print_text print_as out_buffer read_buffer
printed-none m e = rw e refl

bind-ok :
    {A B : Type 0} (o : Outcome A) (f : A → Outcome B) (x : A) (r : Outcome B)
    → o ≡ ok x
    → f x ≡ r
    → (o >>= f) ≡ r
bind-ok o f x r e h = ap (λ y. y >>= f) e ∙ h

bind-fault :
    {A B : Type 0} (o : Outcome A) (f : A → Outcome B) (x : Fault)
    → o ≡ fault x
    → (o >>= f) ≡ fault x
bind-fault o f x e = ap (λ y. y >>= f) e

else-taken :
    {A : Type 0} (b : Bool) (x y : A) {r : A} → b ≡ false → y ≡ r → (if b then x else y) ≡ r
else-taken b x y e h = ap (λ d. if d then x else y) e ∙ h

unnamed : (c : Client) → client_set_id c (some []) ≡ ok (record c { id = [] })
unfolding client_set_id
unnamed c = refl

module _ {T H : Type 0} (lib : Library T) (hash : HashTable H) (trex_match : Str → Str → Bool)
    (getsockname : ℤ → Option SocketName) (os : Os) where
  client_at-found :
      (w : World (Controller T H)) (i : ℕ) (c : Client)
      → get_elem? w.network.clients i ≡ some c
      → client_at lib hash trex_match getsockname os w i ≡ ok c
  unfolding client_at
  client_at-found w i c e = rw (client_at, e) refl

  address-known :
      (c : Client) (n : SocketName)
      → getsockname c.sock ≡ some n
      → client_get_address getsockname c ≡ ok n.address
  unfolding client_get_address
  address-known c n e = rw (client_get_address, e) refl

  -- The answer of type `NONE` is read where it is sent.
  greet-none :
      (w : World (Controller T H)) (i : ℕ) (c : Client) (m : Message)
      → get_elem? w.network.clients i ≡ some c
      → greet lib hash trex_match getsockname os w i
          (some (record m { type = MessageType.none; node1 = some [] }))
        ≡ fault uninitialised
  unfolding greet
  greet-none w i c m e =
      let last = record m { type = MessageType.none; node1 = some [] } in
      bind-ok (client_at lib hash trex_match getsockname os w i) _ c _ (client_at-found w i c e) (
        bind-ok (client_set_id c (some [])) _ (record c { id = [] }) _ (unnamed c)
          (bind-fault (printed (some last)) _ uninitialised (printed-none last refl)))

  -- Once a topology is loaded, with no free node, and the node that a new client asks for taken or
  -- unknown, the login of the client is answered with a message of type NONE, whose buffer
  -- mess__toString returns as malloc gave it: connection_event sends it all the same and reads
  -- bytes that nothing has written. The client must be in the array, and getsockname must know its
  -- socket.
  pub connect_message-full :
      (w : World (Controller T H)) (g : T) (i : ℕ) (c : Client) (n : SocketName) (m : Message)
      (id : Str)
      → get_elem? w.network.clients i ≡ some c
      → getsockname c.sock ≡ some n
      → w.state.graph ≡ some g
      → m.type ≡ MessageType.login
      → m.node1 ≡ some id
      → AllConnected w.state.marks (lib.nodes g)
      → (lib.find_node g id && not (w.state.marks.is_connected id)) ≡ false
      → connect_message lib hash trex_match getsockname os w i m ≡ fault uninitialised
  unfolding connect_message is_none
  connect_message-full w g i c n m id ec en eg et ei full taken =
      let p = copied m.s_parameter (some n.address) in
      let not_none : is_none m.type ≡ false = ap is_none et in
      let answer =
        sock_message-login_full lib hash w.state g (record m { s_parameter = p }) id eg et ei full
          taken in
      bind-ok (client_at lib hash trex_match getsockname os w i) _ c _ (client_at-found w i c ec) (
        else-taken _ _ _ not_none (
          bind-ok (client_get_address getsockname c) _ n.address _ (address-known c n en) (
            bind-ok _ _
              (
                w.state,
                some (record m { s_parameter = p; type = MessageType.none; node1 = some [] }),
              )
              _ answer (greet-none w i c (record m { s_parameter = p }) ec))))
