-- ===== src/Router/Neighborhood/Polled.antt =====
-- A poll from end to end: what the controller answers (controller/exec.c), the text on the wire
-- (common/messages.c) and what the router makes of it (router/exec.cpp and router/router.cpp).
use re203_projet_reseau.Prelude.{
  ℕ, ◌≡◌, ◌<◌, refl, ap, ◌∙◌, true, false, List, ◌∷◌, map, some, Str, Bool, length, ok, ◌>>=◌,
}
use re203_projet_reseau.Messages.Types.{Message, MessageType}
use re203_projet_reseau.Messages.Regexes.{IsPrefixSound}
use re203_projet_reseau.Messages.Escape.{treat_input, treat_output}
use re203_projet_reseau.Messages.Print.{
  read_buffer, printed, to_string, print_text, print_as, print_neighborhood,
}
use re203_projet_reseau.Messages.Parse.{parse}
use re203_projet_reseau.Messages.Wire.{Command, message_of}
use re203_projet_reseau.Net.Sockets.{Os}
use re203_projet_reseau.Net.Update.{World}
use re203_projet_reseau.Controller.Graph.{Library}
use re203_projet_reseau.Controller.Table.{HashTable}
use re203_projet_reseau.Controller.Sock
use re203_projet_reseau.Controller.Sock.{Controller}
use re203_projet_reseau.Controller.Sock.Poll.{Shown, listing}
use re203_projet_reseau.Controller.Sock.Answer.{sock_message-poll}
use re203_projet_reseau.Router.Table.{ClientPointer, RouteTable}
use re203_projet_reseau.Router.State.{Router, with_table}
use re203_projet_reseau.Router.Exec.{sock_message, receive, is_not}
use re203_projet_reseau.Router.Journey.{Survives, arrived, handled, arrived-wire}
use re203_projet_reseau.Router.Neighborhood.{parse_neighborhood}
use re203_projet_reseau.Router.Neighborhood.Left.{AllLeft}
use re203_projet_reseau.Router.Neighborhood.Items.{Listed, text_of, AreReadable}
use re203_projet_reseau.Router.Neighborhood.Listing.{AreKnown, Reweighs, parse_neighborhood-listing}

-- The poll of the router `n`: the controller's event function puts the sender's name into it.
abbrev pub poll_of : Str → Message
poll_of n = record (message_of Command.poll) { node1 = some n }

-- The controller's answer has the name in it still, which the text does not show.
to_string-answer :
    (n l : Str)
    → to_string
        (some (record (poll_of n) { type = MessageType.neighborhood; s_parameter = some l }))
      ≡ to_string (some (message_of (Command.newlist l)))
unfolding to_string print_text print_as print_neighborhood
to_string-answer n l = refl

module _ (trex_match : Str → Str → Bool) (os : Os) (stack_id : Str) (now : ℕ) where
  sock_message-newlist :
      (w : World Router) (l : Str) (t : ClientPointer)
      → sock_message os stack_id now w (some (message_of (Command.newlist l))) t
        ≡ parse_neighborhood os stack_id w (some l)
  unfolding sock_message receive is_not
  sock_message-newlist w l t = refl

  arrived-answer :
      (prefixes : IsPrefixSound trex_match) (n l : Str)
      → Survives trex_match os stack_id now (Command.newlist l)
      → arrived trex_match os stack_id now
          (some (record (poll_of n) { type = MessageType.neighborhood; s_parameter = some l }))
        ≡ ok (some (message_of (Command.newlist l)))
  unfolding arrived printed
  arrived-answer prefixes n l s =
      ap (λ o. o >>= λ p. treat_input (treat_output p) >>= parse trex_match)
        (ap (λ o. o >>= read_buffer) (to_string-answer n l))
      ∙ arrived-wire trex_match os stack_id now prefixes (Command.newlist l) s

  handled-answer :
      (prefixes : IsPrefixSound trex_match) (w : World Router) (t : ClientPointer) (n l : Str)
      → Survives trex_match os stack_id now (Command.newlist l)
      → handled trex_match os stack_id now w t
          (some (record (poll_of n) { type = MessageType.neighborhood; s_parameter = some l }))
        ≡ parse_neighborhood os stack_id w (some l)
  unfolding handled
  handled-answer prefixes w t n l s =
      ap (λ o. o >>= λ m'. sock_message os stack_id now w m' t) (arrived-answer prefixes n l s)
      ∙ sock_message-newlist w l t

  module _ {T H : Type 0} (lib : Library T) (hash : HashTable H) where
    -- The answer of the controller to the poll of a router whose node is not up to date, printed,
    -- framed, unframed and parsed, makes the router change exactly the distances of its listed
    -- neighbours in the table, which are the weights of the topology's edges. The controller must
    -- have loaded the topology and hold what the list shows of the connected neighbours, at least
    -- one, the list must fit 1000 bytes and survive the wire, its names hold neither a comma nor a
    -- semicolon and its addresses no semicolon, and the router's table have all the listed nodes,
    -- completely, and no other neighbour and no route through one.
    pub handled-poll :
        (prefixes : IsPrefixSound trex_match) (c : Controller T H) (g : T) (n : Str)
        (w : World Router) (t : ClientPointer) (l : Listed) (ls : List Listed)
        → c.graph ≡ some g
        → lib.find_node g n ≡ true
        → c.marks.is_up_to_date n ≡ false
        → Shown lib hash c n (lib.edges g n) (map text_of (l ∷ ls))
        → length (listing (map text_of (l ∷ ls))) < 1000
        → Survives trex_match os stack_id now (Command.newlist (listing (map text_of (l ∷ ls))))
        → AreReadable (l ∷ ls)
        → AreKnown w.state.name w.state.table (l ∷ ls)
        → AllLeft (map (λ (x : Listed). x.name) (l ∷ ls)) w.state.table
        → (t' : RouteTable) × ((Sock.sock_message lib hash c (some (poll_of n)) >>= λ r.
              handled trex_match os stack_id now w t r.1)
            ≡ ok (with_table w t'))
          × Reweighs w.state.table (l ∷ ls) t'
    handled-poll prefixes c g n w t l ls eg found stale shown fits s h k a =
        let (t', r, same) = parse_neighborhood-listing os stack_id w l ls h k a in
        (
          t',
          ap (λ o. o >>= λ r. handled trex_match os stack_id now w t r.1)
                (sock_message-poll lib hash c g (poll_of n) n (map text_of (l ∷ ls)) eg refl refl
                  found stale shown fits)
              ∙ handled-answer prefixes w t n (listing (map text_of (l ∷ ls))) s
              ∙ r,
          same,
        )
