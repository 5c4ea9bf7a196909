-- ===== src/Router/Vector/Received.antt =====
-- A vector that a router receives (router/exec.cpp): the table of routes and the answer.
use re203_projet_reseau.Prelude.{
  ap, ℕ, ◌≡◌, refl, false, ◌∙◌, List, [], ◌∷◌, ◌++◌, none, some, Str, Bool, codes, str_eq,
  str_eq_refl, if◌then◌else◌, ℤ, pos, ok, ◌>>=◌, Bool-cases, inl, inr,
}
use re203_projet_reseau.Messages.Types.{Acceptance, MessageType, Message, init_message}
use re203_projet_reseau.Messages.Wire.{Command, message_of}
use re203_projet_reseau.Messages.Print.{
  printed, read_buffer, out_buffer, to_string, print_text, print_as, print_vector, write_buffer,
}
use re203_projet_reseau.Net.Client.{Client}
use re203_projet_reseau.Net.Sockets.{Os}
use re203_projet_reseau.Net.Sending.{network_send}
use re203_projet_reseau.Net.Update.{World}
use re203_projet_reseau.Router.Table.{
  ClientPointer, Entry, RouteTable, find, put, modify, vector_text,
}
use re203_projet_reseau.Router.Table.Laws.{find-put, at-found}
use re203_projet_reseau.Router.State.{Router, client_at, with_table}
use re203_projet_reseau.Router.SockActions.{vector_ack, send_to_entry, send_to, send}
use re203_projet_reseau.Router.Vector.{parse_vector}
use re203_projet_reseau.Router.Vector.Text.{routes, ArePrintable}
use re203_projet_reseau.Router.Vector.Revised.{IsVector, announced, revised}
use re203_projet_reseau.Router.Vector.Served.{NoneLearnt, parse_vector-revised}
use re203_projet_reseau.Messages.Regexes.{IsPrefixSound}
use re203_projet_reseau.Router.Journey.{Survives, handled, arrived-wire}
use re203_projet_reseau.Router.Vector.Shortest.{
  IsFar, HasLength, route_of, shortest, revised-shortest,
}
use re203_projet_reseau.Router.Exec.{sock_message, receive, receive_vector, read_vector, is_ok}

-- A vector does not announce the router that has sent it.
announced-source :
    (source : Str) (base : ℤ) (rs : List (Str × ℤ))
    → IsVector source base rs
    → announced source rs ≡ none
announced-source source base [] v = refl
announced-source source base ((s, dist) ∷ rs) v = rw (v.0.1) (announced-source source base rs v.1)

revised-source :
    (name source : Str) (base : ℤ) (rs : List (Str × ℤ)) (t : RouteTable)
    → IsVector source base rs
    → revised name source base rs t source ≡ find source t
revised-source name source base rs t v = elim (Bool-cases (str_eq source name)) [
  | inl e ↦ rw e refl
  | inr e ↦ rw (e, announced-source source base rs v) refl
]

-- What a pointer to a client stands for does not depend on the table.
client_at-with_table :
    (w : World Router) (t : RouteTable) (p : ClientPointer)
    → client_at (with_table w t) p ≡ client_at w p
unfolding client_at
client_at-with_table w t ClientPointer.null = refl
client_at-with_table w t (ClientPointer.in_array i) = refl
client_at-with_table w t ClientPointer.local = refl

abbrev acknowledged : Message
acknowledged = record init_message { type = MessageType.vector; accept = Acceptance.ok }

acknowledged-text : printed (some acknowledged) ≡ ok (some (codes "vector ok"))
unfolding printed read_buffer to_string print_text out_buffer print_as print_vector write_buffer
acknowledged-text = refl

module _ (os : Os) (stack_id : Str) (now : ℕ) where
  -- The acknowledgement goes to the client of the source's entry.
  vector_ack-found :
      (w : World Router) (source : Str) (es : Entry) (d : Client)
      → find source w.state.table ≡ some es
      → client_at w es.client ≡ ok d
      → vector_ack os w source
        ≡ ok (record w { calls = w.calls ++ (network_send os d (some (codes "vector ok"))).1 })
  unfolding vector_ack send_to_entry send_to send
  vector_ack-found w source es d h e =
      ap (λ p. send_to os (with_table w p.1) p.0.client acknowledged)
        (at-found w.state.table source h)
      ∙ rw (acknowledged-text, e) refl

  -- What is left to do when the vector is read.
  abbrev seen : Str → World Router → World Router
  seen source w =
      with_table w (modify source (λ e. record e { seconds_inactive = pos 0 }) w.state.table)

  sock_message-read :
      (w : World Router) (v : Str) (t : ClientPointer) (c : Client)
      → client_at w t ≡ ok c
      → sock_message os stack_id now w (some (message_of (Command.vector v))) t ≡ (
          (parse_vector w.state.name w.state.table (some v) c.id >>= λ t1.
          vector_ack os (with_table w t1) c.id)
          >>= λ w1. ok (seen c.id w1))
  unfolding sock_message receive receive_vector read_vector is_ok
  sock_message-read w v t c e =
      ap
        (λ o. o >>= λ c.
          read_vector os stack_id now w (message_of (Command.vector v)) c.id >>= λ w1.
          ok (seen c.id w1))
        e

  -- A look at the table behind the vector.
  seen-find :
      (t : RouteTable) (source k : Str) (es : Entry)
      → find source t ≡ some es
      → find k (modify source (λ e. record e { seconds_inactive = pos 0 }) t)
        ≡ (if str_eq source k then some (record es { seconds_inactive = pos 0 }) else find k t)
  unfolding modify
  seen-find t source k es h =
      ap (λ p. find k (put source (record p.0 { seconds_inactive = pos 0 }) p.1))
        (at-found t source h)
      ∙ find-put t k source (record es { seconds_inactive = pos 0 })

  module _ (trex_match : Str → Str → Bool) (prefixes : IsPrefixSound trex_match) where
    -- Every entry behind the vector.
    handled-revised :
        (w : World Router) (t : ClientPointer) (c d : Client) (theirs : RouteTable) (es : Entry)
        → client_at w t ≡ ok c
        → find c.id w.state.table ≡ some es
        → client_at w es.client ≡ ok d
        → NoneLearnt c.id w.state.table
        → ArePrintable (routes w.state.name theirs)
        → IsVector c.id es.dist (routes w.state.name theirs)
        → Survives trex_match os stack_id now (Command.vector (vector_text theirs w.state.name))
        → (t' : RouteTable) × (handled trex_match os stack_id now w t
              (some (message_of (Command.vector (vector_text theirs w.state.name))))
            ≡ ok (record (with_table w t') {
              calls = w.calls ++ (network_send os d (some (codes "vector ok"))).1;
            }))
          × ((k : Str)
              → find k t' ≡ (
                  if str_eq c.id k
                  then some (record es { seconds_inactive = pos 0 })
                  else revised w.state.name c.id es.dist
                      (routes w.state.name theirs)
                      w.state.table
                      k))
    unfolding handled
    handled-revised w t c d theirs es at_t known at_d n p v s =
        let rs = routes w.state.name theirs in
        let text = vector_text theirs w.state.name in
        let (t1, r, f) =
          parse_vector-revised w.state.name c.id theirs w.state.table es known n p v in
        let kept : find c.id t1 ≡ some es =
          f c.id ∙ (revised-source w.state.name c.id es.dist rs w.state.table v ∙ known) in
        (
          modify c.id (λ e. record e { seconds_inactive = pos 0 }) t1,
          ap (λ o. o >>= λ m'. sock_message os stack_id now w m' t)
                (arrived-wire trex_match os stack_id now prefixes (Command.vector text) s)
              ∙ (sock_message-read w text t c at_t
                  ∙ (ap
                        (λ o. (o >>= λ t2. vector_ack os (with_table w t2) c.id) >>= λ w1.
                          ok (seen c.id w1))
                        r
                      ∙ ap (λ o. o >>= λ w1. ok (seen c.id w1))
                          (vector_ack-found (with_table w t1) c.id es d kept
                            (client_at-with_table w t1 es.client ∙ at_d)))),
          λ k.
              seen-find t1 c.id k es kept
              ∙ ap (λ o. if str_eq c.id k then some (record es { seconds_inactive = pos 0 }) else o)
                  (f k),
        )

    -- The vector that a neighbour has printed of its table, printed as a message, framed, unframed
    -- and parsed, makes the router acknowledge it to the neighbour and change its table, in which
    -- the time of the neighbour's silence is reset and the route of each node that is no neighbour,
    -- nor the router itself, is that of a step of the distance-vector algorithm; beside the table,
    -- nothing else changes. The node's old route must not go through the neighbour already, and the
    -- length of the way through the neighbour not be negative. The neighbour must be in the table
    -- with its connection, no route to another node may go through it yet, the names must hold
    -- neither a comma nor a semicolon, no name may be the neighbour's own or stand twice, the
    -- distances and their sums must be ints, and the text must survive the wire.
    pub handled-vector :
        (w : World Router) (t : ClientPointer) (c d : Client) (theirs : RouteTable) (es : Entry)
        (k : Str)
        → client_at w t ≡ ok c
        → find c.id w.state.table ≡ some es
        → client_at w es.client ≡ ok d
        → NoneLearnt c.id w.state.table
        → ArePrintable (routes w.state.name theirs)
        → IsVector c.id es.dist (routes w.state.name theirs)
        → Survives trex_match os stack_id now (Command.vector (vector_text theirs w.state.name))
        → str_eq k w.state.name ≡ false
        → str_eq c.id k ≡ false
        → IsFar c.id (find k w.state.table)
        → HasLength es.dist (announced k (routes w.state.name theirs))
        → (t' : RouteTable) × (handled trex_match os stack_id now w t
              (some (message_of (Command.vector (vector_text theirs w.state.name))))
            ≡ ok (record (with_table w t') {
              calls = w.calls ++ (network_send os d (some (codes "vector ok"))).1;
            }))
          × (find c.id t' ≡ some (record es { seconds_inactive = pos 0 }))
          × (route_of (find k t')
              ≡ shortest c.id es.dist
                  (announced k (routes w.state.name theirs))
                  (route_of (find k w.state.table)))
    handled-vector w t c d theirs es k at_t known at_d n p v s other away far l =
        let rs = routes w.state.name theirs in
        let (t', r, f) = handled-revised w t c d theirs es at_t known at_d n p v s in
        (
          t',
          r,
          f c.id ∙ rw (str_eq_refl c.id) refl,
          ap route_of (f k)
              ∙ (rw away
                  (revised-shortest w.state.name c.id es.dist rs w.state.table k other far l)),
        )
