-- ===== src/Router/Exec/Handed.antt =====
-- What a router makes of the packets, pings and pongs of the protocol on their way to another router
-- (`Exec::sock_message` of router/exec.cpp), as the texts that it sends.
use re203_projet_reseau.Libc.Decimal.{int_max}
use re203_projet_reseau.Prelude.{
  ℕ, ◌≡◌, ◌≢◌, refl, ap, ◌∙◌, false, ◌++◌, Option, none, some, Str, str_eq, ok, arith, ℤ, pos,
  negsuc, ◌+ℤ◌, ◌==ℤ◌, ◌≤◌, ◌+◌, length, if◌then◌else◌, Bool-cases, inl, inr, ◌>>=◌,
}
use re203_projet_reseau.Messages.Types.{Message}
use re203_projet_reseau.Messages.Print.{
  to_string, capacity, print_as, print_packet, print_pong, print_addresses, printed,
}
use re203_projet_reseau.Messages.Wire.{Command, wire, message_of}
use re203_projet_reseau.Messages.Wire.Printed.{to_string-fits, to_string-text, printed-text}
use re203_projet_reseau.Net.Client.{Client}
use re203_projet_reseau.Net.Sockets.{Os}
use re203_projet_reseau.Net.Sending.{network_send}
use re203_projet_reseau.Net.Update.{World}
use re203_projet_reseau.Router.Table.{ClientPointer}
use re203_projet_reseau.Router.State.{Router}
use re203_projet_reseau.Router.Exec.{sock_message, is_ttlzero}
use re203_projet_reseau.Router.Exec.Forward.{Route, IsRouted, GoesOn, older, sent}
use re203_projet_reseau.Router.Exec.Transit.{returned, sock_message-forwarded, sock_message-expired}
use re203_projet_reseau.Router.Exec.Endless.{to_string-older}

abbrev pub source : Command → Option Str
source (Command.packet q a b t d) = some a
source (Command.packet_ok q a b) = some a
source (Command.packet_toofar q a b) = some a
source (Command.ping q a b t) = some a
source (Command.pong q a b t) = some a
source (Command.pong_ttlzero q a b) = some a
source _ = none

abbrev pub destination : Command → Option Str
destination (Command.packet q a b t d) = some b
destination (Command.packet_ok q a b) = some b
destination (Command.packet_toofar q a b) = some b
destination (Command.ping q a b t) = some b
destination (Command.pong q a b t) = some b
destination (Command.pong_ttlzero q a b) = some b
destination _ = none

-- What leaves a router on the way: the time to live counts down, where the command has one.
abbrev pub passed_on : Command → Option Command
passed_on (Command.packet q a b t d) =
    if t ==ℤ pos 0 then none else some (Command.packet q a b (t +ℤ negsuc 0) d)
passed_on (Command.ping q a b t) =
    if t ==ℤ pos 0 then none else some (Command.ping q a b (t +ℤ negsuc 0))
passed_on (Command.pong q a b t) =
    if t ==ℤ pos 0 then none else some (Command.pong q a b (t +ℤ negsuc 0))
passed_on (Command.packet_ok q a b) = some (Command.packet_ok q a b)
passed_on (Command.packet_toofar q a b) = some (Command.packet_toofar q a b)
passed_on (Command.pong_ttlzero q a b) = some (Command.pong_ttlzero q a b)
passed_on _ = none

passed_on-GoesOn : (k k' : Command) → passed_on k ≡ some k' → GoesOn (message_of k)
unfolding is_ttlzero
passed_on-GoesOn (Command.packet q a b t d) k' e = ground arith
passed_on-GoesOn (Command.ping q a b t) k' e = ground arith
passed_on-GoesOn (Command.pong q a b t) k' e = ground arith
passed_on-GoesOn (Command.packet_ok q a b) k' e = refl
passed_on-GoesOn (Command.packet_toofar q a b) k' e = refl
passed_on-GoesOn (Command.pong_ttlzero q a b) k' e = refl
passed_on-GoesOn _ k' e = cc

passed_on-IsRouted : (k k' : Command) → passed_on k ≡ some k' → IsRouted (message_of k).type
passed_on-IsRouted (Command.packet q a b t d) k' e = tt
passed_on-IsRouted (Command.ping q a b t) k' e = tt
passed_on-IsRouted (Command.pong q a b t) k' e = tt
passed_on-IsRouted (Command.packet_ok q a b) k' e = tt
passed_on-IsRouted (Command.packet_toofar q a b) k' e = tt
passed_on-IsRouted (Command.pong_ttlzero q a b) k' e = tt
passed_on-IsRouted _ k' e = cc

destination-node2 : (k : Command) (b : Str) → destination k ≡ some b → (message_of k).node2 ≡ some b
destination-node2 (Command.packet q a b t d) c e = e
destination-node2 (Command.ping q a b t) c e = e
destination-node2 (Command.pong q a b t) c e = e
destination-node2 (Command.packet_ok q a b) c e = e
destination-node2 (Command.packet_toofar q a b) c e = e
destination-node2 (Command.pong_ttlzero q a b) c e = e
destination-node2 _ c e = cc

-- What is left of a command whose time to live is not used up.
counted-eq : (t : ℤ) (k k' : Command) → (if t ==ℤ pos 0 then none else some k) ≡ some k' → k ≡ k'
counted-eq t k k' e = elim (Bool-cases (t ==ℤ pos 0)) [
  | inl z ↦ let absent : none ≡ some k' = rw z at e in cc absent
  | inr z ↦ let left : some k ≡ some k' = rw z at e in cc left
]

text_of-eq :
    (k k' : Command) → k ≡ k' → to_string (some (message_of k)) ≡ to_string (some (message_of k'))
text_of-eq k k' e = ap (λ c. to_string (some (message_of c))) e

-- The message that the router prints shows as the command.
to_string-passed_on :
    (k k' : Command)
    → passed_on k ≡ some k'
    → to_string (some (older (message_of k))) ≡ to_string (some (message_of k'))
to_string-passed_on (Command.packet q a b t d) k' e =
    text_of-eq (Command.packet q a b (t +ℤ negsuc 0) d) k' (counted-eq t _ k' e)
to_string-passed_on (Command.ping q a b t) k' e =
    text_of-eq (Command.ping q a b (t +ℤ negsuc 0)) k' (counted-eq t _ k' e)
to_string-passed_on (Command.pong q a b t) k' e =
    text_of-eq (Command.pong q a b (t +ℤ negsuc 0)) k' (counted-eq t _ k' e)
to_string-passed_on (Command.packet_ok q a b) k' e =
    to_string-older (Command.packet_ok q a b) b refl
    ∙ text_of-eq (Command.packet_ok q a b) k' (cc e)
to_string-passed_on (Command.packet_toofar q a b) k' e =
    to_string-older (Command.packet_toofar q a b) b refl
    ∙ text_of-eq (Command.packet_toofar q a b) k' (cc e)
to_string-passed_on (Command.pong_ttlzero q a b) k' e =
    to_string-older (Command.pong_ttlzero q a b) b refl
    ∙ text_of-eq (Command.pong_ttlzero q a b) k' (cc e)
to_string-passed_on _ k' e = cc

-- The router has sent the text, and nothing else has changed.
abbrev pub sent_text : Os → World Router → Client → Str → World Router
sent_text os w c text = record w { calls = w.calls ++ (network_send os c (some text)).1 }

pub sent-eq-text :
    (os : Os) (w : World Router) (c : Client) (m : Message) (text : Str)
    → printed (some m) ≡ ok (some text)
    → sent os w c m ≡ ok (sent_text os w c text)
sent-eq-text os w c m text e =
    ap (λ o. o >>= λ p. ok (record w { calls = w.calls ++ (network_send os c p).1 })) e

-- What a router answers to a command whose time to live is 0: the data comes back as too far, a ping
-- as a pong from the router `name`, and a pong is dropped.
abbrev pub answered : Str → Command → Option Command
answered name (Command.packet q a b t d) = some (Command.packet_toofar q b a)
answered name (Command.ping q a b t) = some (Command.pong_ttlzero q name a)
answered name _ = none

-- The commands with a time to live that is used up.
abbrev pub HasExpired : Command → Type 0
HasExpired (Command.packet q a b t d) = t ≡ pos 0
HasExpired (Command.ping q a b t) = t ≡ pos 0
HasExpired (Command.pong q a b t) = t ≡ pos 0
HasExpired _ = ⊥

-- The answer fits the buffer of the message.
abbrev pub FitsAnswer : Str → Command → Type 0
FitsAnswer name (Command.packet q a b t d) =
    length (wire (Command.packet_toofar q b a)) + 1 ≤ 50 + length d
FitsAnswer name (Command.ping q a b t) = length (wire (Command.pong_ttlzero q name a)) + 1 ≤ 50
FitsAnswer name _ = Unit

-- The router with the answer sent, if there is one.
abbrev pub with_answer : Os → World Router → Client → Option Command → World Router
with_answer os w c none = w
with_answer os w c (some k) = sent_text os w c (wire k)

module _ (os : Os) (stack_id : Str) (now : ℕ) (w : World Router) where
  -- A data packet, a ping or a pong for another router whose time to live is not 0 leaves for the
  -- next hop as the text of the same message with its time to live counted down by one, and an
  -- acknowledgement as the text that it came with; nothing else changes. The table must have a
  -- route to the destination, over a neighbour with its connection, the time to live must not be
  -- the least int, and the text must fit the buffer of mess__toString.
  pub sock_message-passed_on :
      (k k' : Command) (t : ClientPointer) (node : Str) (c : Client)
      → passed_on k ≡ some k'
      → destination k ≡ some node
      → str_eq node w.state.name ≡ false
      → (message_of k).n_parameter ≢ negsuc int_max
      → Route w node c
      → length (wire k') + 1 ≤ capacity (message_of k')
      → sock_message os stack_id now w (some (message_of k)) t ≡ ok (sent_text os w c (wire k'))
  sock_message-passed_on k k' t node c e d o n route fits =
      sock_message-forwarded os stack_id now w (message_of k) t node c (passed_on-IsRouted k k' e)
        (destination-node2 k node d) o n (passed_on-GoesOn k k' e) route
      ∙ sent-eq-text os w c (older (message_of k)) (wire k')
          (printed-text _ (wire k') (to_string-passed_on k k' e ∙ to_string-fits k' fits))

  returned-answered :
      (k : Command) (c : Client) (ttl : ℤ)
      → HasExpired k
      → FitsAnswer w.state.name k
      → returned os stack_id now w (message_of k) c ttl (message_of k).type
        ≡ ok (with_answer os w c (answered w.state.name k))
  unfolding print_as print_packet print_pong print_addresses
  returned-answered (Command.packet q a b t d) c ttl h f =
      sent-eq-text os w c _ (wire (Command.packet_toofar q b a))
        (printed-text _ _ (to_string-text _ (wire (Command.packet_toofar q b a)) refl f))
  returned-answered (Command.ping q a b t) c ttl h f =
      sent-eq-text os w c _ (wire (Command.pong_ttlzero q w.state.name a))
        (printed-text _ _ (to_string-text _ (wire (Command.pong_ttlzero q w.state.name a)) refl f))
  returned-answered (Command.pong q a b t) c ttl h f = refl
  returned-answered _ c ttl h f = absurd h

  -- A data packet for another router whose time to live is 0 makes the router send the text of a
  -- packet that has come too far, from the destination back to the source, and a ping that of a
  -- pong from this router with the state TTLZERO; a pong is dropped. Nothing else changes. The
  -- table must have a route to the source, over a neighbour with its connection, a time to live
  -- must be configured, and the answer fit the buffer of mess__toString.
  pub sock_message-answered :
      (k : Command) (t : ClientPointer) (from to : Str) (c : Client) (ttl : ℤ)
      → HasExpired k
      → source k ≡ some from
      → destination k ≡ some to
      → str_eq to w.state.name ≡ false
      → w.state.config.default_ttl_value ≡ some ttl
      → Route w from c
      → FitsAnswer w.state.name k
      → sock_message os stack_id now w (some (message_of k)) t
        ≡ ok (with_answer os w c (answered w.state.name k))
  unfolding is_ttlzero
  sock_message-answered (Command.packet q a b z d) t from to c ttl h s e o conf route f =
      sock_message-expired os stack_id now w (message_of (Command.packet q a b z d)) t to from c ttl
        tt e o h refl s conf route
      ∙ returned-answered (Command.packet q a b z d) c ttl h f
  sock_message-answered (Command.ping q a b z) t from to c ttl h s e o conf route f =
      sock_message-expired os stack_id now w (message_of (Command.ping q a b z)) t to from c ttl tt
        e o h refl s conf route
      ∙ returned-answered (Command.ping q a b z) c ttl h f
  sock_message-answered (Command.pong q a b z) t from to c ttl h s e o conf route f =
      sock_message-expired os stack_id now w (message_of (Command.pong q a b z)) t to from c ttl tt
        e o h refl s conf route
  sock_message-answered _ t from to c ttl h s e o conf route f = absurd h
