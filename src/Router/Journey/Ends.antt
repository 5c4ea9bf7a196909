-- ===== src/Router/Journey/Ends.antt =====
-- How a packet's way through several routers ends (router/exec.cpp).
use re203_projet_reseau.Router.Exec.{is_ttlzero}
use re203_projet_reseau.Router.Journey.{
  pass_on, journey, Survives, pass_on-sent, IsRelay, OnTheWay, AllRelays, AllOnTheWay,
}
use re203_projet_reseau.Router.Exec.Endless.{acknowledgement, to_string-older, sock_message-relayed}
use re203_projet_reseau.Prelude.{
  ℕ, zero, suc, ◌≡◌, refl, ap, ◌∙◌, Bool, List, [], ◌∷◌, ◌++◌, some, Str, arith, ℤ, pos, negsuc,
  ◌+ℤ◌, ok, ◌>>=◌, length,
}
use re203_projet_reseau.Messages.Types.{Message, MessageType, Acceptance}
use re203_projet_reseau.Messages.Print.{to_string, print_as, print_packet, print_addresses}
use re203_projet_reseau.Messages.Regexes.{IsPrefixSound}
use re203_projet_reseau.Messages.Wire.{Command, wire, message_of}
use re203_projet_reseau.Messages.Wire.Printed.{to_string-fits, to_string-text, printed-text}
use re203_projet_reseau.Net.Sockets.{Os}
use re203_projet_reseau.Net.Update.{World}
use re203_projet_reseau.Router.Table.{ClientPointer}
use re203_projet_reseau.Router.State.{Router}
use re203_projet_reseau.Router.Exec.Forward.{older}
use re203_projet_reseau.Router.Exec.Transit.{sock_message-forwarded, sock_message-expired}

one_less : (k : ℕ) → pos (suc k) +ℤ negsuc 0 ≡ pos k
unfolding ◌+ℤ◌
one_less k = ground arith

module _ (trex_match : Str → Str → Bool) (prefixes : IsPrefixSound trex_match) (os : Os)
    (stack_id : Str) (now : ℕ) where
  -- An acknowledgement that a packet has arrived or come too far, or that a ping's time has ended,
  -- passes any number of routers with a route to its destination and is the same behind the last of
  -- them: on a cycle of routes it goes round for ever. Its text must survive its printing and
  -- parsing.
  pub journey-acknowledgement :
      (routers : List (World Router × ClientPointer)) (k : Command) (b : Str)
      → acknowledgement k ≡ some b
      → Survives trex_match os stack_id now k
      → AllRelays b routers
      → journey trex_match os stack_id now routers (some (message_of k)) ≡ ok (some (message_of k))
  unfolding journey
  journey-acknowledgement [] k b h s r = refl
  journey-acknowledgement ((w, t) ∷ routers) k b h s r =
      ap (λ o. o >>= journey trex_match os stack_id now routers)
        (pass_on-sent trex_match os stack_id now prefixes w t r.0.ahead (message_of k)
          (older (message_of k)) k
          (sock_message-relayed os stack_id now w k b t r.0.ahead h r.0.other r.0.to_b)
          (printed-text _ (wire k) (to_string-older k b h ∙ to_string-fits k s.2)) s)
      ∙ journey-acknowledgement routers k b h s r.1

  module _ (q : ℤ) (a b d : Str) where
    abbrev data_packet : ℕ → Command
    data_packet n = Command.packet q a b (pos n) d

    pass_on-older :
        (r : World Router × ClientPointer) (k : ℕ)
        → IsRelay b r
        → Survives trex_match os stack_id now (data_packet k)
        → pass_on trex_match os stack_id now r.0 r.1 (message_of (data_packet (suc k)))
          ≡ ok (some (message_of (data_packet k)))
    pass_on-older r k h s =
        pass_on-sent trex_match os stack_id now prefixes r.0 r.1 h.ahead
          (message_of (data_packet (suc k))) (older (message_of (data_packet (suc k))))
          (data_packet k)
          (sock_message-forwarded os stack_id now r.0 (message_of (data_packet (suc k))) r.1 b
            h.ahead tt refl h.other (ground arith) (ground arith) h.to_b)
          (printed-text _ (wire (data_packet k)) (
            ap (λ z. to_string (some (message_of (Command.packet q a b z d)))) (one_less k)
            ∙ to_string-fits (data_packet k) s.2))
          s

    toofar_text :
        (ttl : ℤ)
        → print_as MessageType.packet (record (message_of (data_packet 0)) {
          accept = Acceptance.toofar;
          node1 = some b;
          node2 = some a;
          n_parameter = ttl;
        })
          ≡ ok (some (wire (Command.packet_toofar q b a)))
    unfolding print_as print_packet print_addresses
    toofar_text ttl = refl

    pass_on-turned :
        (r : World Router × ClientPointer)
        → OnTheWay a b r
        → Survives trex_match os stack_id now (Command.packet_toofar q b a)
        → pass_on trex_match os stack_id now r.0 r.1 (message_of (data_packet 0))
          ≡ ok (some (message_of (Command.packet_toofar q b a)))
    unfolding is_ttlzero
    pass_on-turned r h s =
        let m = message_of (data_packet 0) in
        let m' : Message = record m {
          accept = Acceptance.toofar;
          node1 = some b;
          node2 = some a;
          n_parameter = h.ttl;
        } in
        pass_on-sent trex_match os stack_id now prefixes r.0 r.1 h.back m m'
          (Command.packet_toofar q b a)
          (sock_message-expired os stack_id now r.0 m r.1 b a h.back h.ttl tt refl h.relay.other
            refl refl refl h.configured h.to_a)
          (printed-text _ (wire (Command.packet_toofar q b a)) (
            to_string-text m' (wire (Command.packet_toofar q b a)) (toofar_text h.ttl)
              (omega (arith, s.2))))
          s

    -- The commands with a smaller time to live survive.
    abbrev pub AllSurvive : ℕ → Type 0
    AllSurvive zero = Unit
    AllSurvive (suc k) = Survives trex_match os stack_id now (data_packet k) × AllSurvive k

    -- A data packet with the time to live n passes n routers and no more: the router behind them
    -- sends it back to its source as too far. Each router hands it to the next as the text of the
    -- wire, which must survive its printing and parsing, and each must have routes to the
    -- destination and the source and a configured time to live.
    pub journey-data :
        (routers : List (World Router × ClientPointer)) (last : World Router × ClientPointer)
        → AllSurvive (length routers)
        → Survives trex_match os stack_id now (Command.packet_toofar q b a)
        → AllOnTheWay a b routers
        → OnTheWay a b last
        → journey trex_match os stack_id now
            (routers ++ last ∷ [])
            (some (message_of (data_packet (length routers))))
          ≡ ok (some (message_of (Command.packet_toofar q b a)))
    unfolding journey
    journey-data [] last s u r h =
        ap (λ o. o >>= journey trex_match os stack_id now []) (pass_on-turned last h u) ∙ refl
    journey-data ((w, t) ∷ routers) last s u r h =
        ap (λ o. o >>= journey trex_match os stack_id now (routers ++ last ∷ []))
          (pass_on-older (w, t) (length routers) r.0.relay s.0)
        ∙ journey-data routers last s.1 u r.1 h
