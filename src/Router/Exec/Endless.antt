-- ===== src/Router/Exec/Endless.antt =====
-- Acknowledgements between routers (`Exec::sock_message` of router/exec.cpp) as the wire carries them: the
-- text of an acknowledgement has no time to live.
use re203_projet_reseau.Prelude.{
  ◌≡◌, refl, ◌∙◌, ap, false, ◌++◌, some, none, Option, Str, str_eq, ok, arith, ℕ, ◌≤◌, ◌+◌, length,
  ◌>>=◌,
}
use re203_projet_reseau.Messages.Print.{
  to_string, capacity, print_text, print_as, print_packet, print_pong, print_addresses,
}
use re203_projet_reseau.Messages.Wire.{Command, wire, message_of}
use re203_projet_reseau.Messages.Wire.Printed.{to_string-fits, printed-text}
use re203_projet_reseau.Net.Client.{Client}
use re203_projet_reseau.Net.Sockets.{Os}
use re203_projet_reseau.Net.Sending.{network_send}
use re203_projet_reseau.Net.Update.{World}
use re203_projet_reseau.Router.Table.{ClientPointer}
use re203_projet_reseau.Router.State.{Router}
use re203_projet_reseau.Router.Exec.{sock_message}
use re203_projet_reseau.Router.Exec.Forward.{Route, older, sent}
use re203_projet_reseau.Router.Exec.Transit.{sock_message-forwarded}

-- The destination of an acknowledgement.
abbrev pub acknowledgement : Command → Option Str
acknowledgement (Command.packet_ok q a b) = some b
acknowledgement (Command.packet_toofar q a b) = some b
acknowledgement (Command.pong_ttlzero q a b) = some b
acknowledgement _ = none

-- The text does not have the time to live.
pub to_string-older :
    (c : Command) (node : Str)
    → acknowledgement c ≡ some node
    → to_string (some (older (message_of c))) ≡ to_string (some (message_of c))
unfolding to_string print_text print_as print_packet print_pong print_addresses
to_string-older (Command.packet_ok q a b) node h = refl
to_string-older (Command.packet_toofar q a b) node h = refl
to_string-older (Command.pong_ttlzero q a b) node h = refl
to_string-older _ node h = cc

module _ (os : Os) (stack_id : Str) (now : ℕ) (w : World Router) where
  pub sock_message-relayed :
      (k : Command) (node : Str) (t : ClientPointer) (c : Client)
      → acknowledgement k ≡ some node
      → str_eq node w.state.name ≡ false
      → Route w node c
      → sock_message os stack_id now w (some (message_of k)) t ≡ sent os w c (older (message_of k))
  sock_message-relayed (Command.packet_ok q a b) node t c h o r =
      sock_message-forwarded os stack_id now w _ t node c tt h o (ground arith) refl r
  sock_message-relayed (Command.packet_toofar q a b) node t c h o r =
      sock_message-forwarded os stack_id now w _ t node c tt h o (ground arith) refl r
  sock_message-relayed (Command.pong_ttlzero q a b) node t c h o r =
      sock_message-forwarded os stack_id now w _ t node c tt h o (ground arith) refl r
  sock_message-relayed _ node t c h o r = cc

  -- An acknowledgement, as it is read from the wire, that is not for this router is sent to the next hop
  -- word for word, however many routers it has passed, and nothing else changes.
  pub sock_message-acknowledgement :
      (k : Command) (node : Str) (t : ClientPointer) (c : Client)
      → acknowledgement k ≡ some node
      → length (wire k) + 1 ≤ capacity (message_of k)
      → str_eq node w.state.name ≡ false
      → Route w node c
      → sock_message os stack_id now w (some (message_of k)) t
        ≡ ok (record w { calls = w.calls ++ (network_send os c (some (wire k))).1 })
  sock_message-acknowledgement k node t c h fits o r =
      sock_message-relayed k node t c h o r
      ∙ ap (λ p. p >>= λ text. ok (record w { calls = w.calls ++ (network_send os c text).1 }))
          (printed-text _ (wire k) (to_string-older k node h ∙ to_string-fits k fits))
