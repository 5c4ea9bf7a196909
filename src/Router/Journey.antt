-- ===== src/Router/Journey.antt =====
-- The way of a packet through several routers: each handles the message (`Exec::sock_message` of
-- router/exec.cpp), and the next one reads from the wire what it has sent (common/messages.c).
pub mod Ends
use re203_projet_reseau.Prelude.{fault}
use re203_projet_reseau.Router.Exec.Endless.{acknowledgement, to_string-older, sock_message-relayed}
use re203_projet_reseau.Prelude.{
  ℕ, zero, suc, ◌+◌, ◌-◌, ◌≤◌, ◌<◌, ◌≡◌, ◌≢◌, refl, sym, ap, ◌∙◌, Bool, true, false, List, [], ◌∷◌,
  ◌++◌, Option, some, none, Str, Pointer, str_eq, arith, ℤ, pos, negsuc, ◌+ℤ◌, ok, Outcome, ◌>>=◌,
  bind-eq-ok, length, drop, drop-length-append, leb, if◌then◌else◌,
}
use re203_projet_reseau.Libc.Decimal.{int_max}
use re203_projet_reseau.Util.{strcopy}
use re203_projet_reseau.Messages.Types.{Message, MessageType, Acceptance}
use re203_projet_reseau.Messages.Escape.{treat_input, treat_output, treat_output_bytes}
use re203_projet_reseau.Messages.Escape.RoundTrip.{last?, treat_input-treat_output}
use re203_projet_reseau.Messages.Parse.{parse}
use re203_projet_reseau.Messages.Escape.{treat_output}
use re203_projet_reseau.Messages.Print.{
  capacity, printed, to_string, print_text, print_as, print_packet, print_addresses, write_buffer,
}
use re203_projet_reseau.Messages.Regexes.{IsPrefixSound}
use re203_projet_reseau.Messages.Wire.{Command, wire, message_of}
use re203_projet_reseau.Messages.Wire.Parsed.{IsSendable}
use re203_projet_reseau.Messages.Wire.Printed.{to_string-fits}
use re203_projet_reseau.Messages.Wire.RoundTrip.{Knows, parse-wire, parse-to_string}
use re203_projet_reseau.Net.Client.{Client}
use re203_projet_reseau.Net.Sockets.{Os, Effect, write_client}
use re203_projet_reseau.Net.Sending.{network_send, send_framed}
use re203_projet_reseau.Net.Update.{World}
use re203_projet_reseau.Router.Table.{ClientPointer}
use re203_projet_reseau.Router.State.{Router}
use re203_projet_reseau.Router.Exec.{sock_message}
use re203_projet_reseau.Router.Exec.Forward.{Route, GoesOn, older, sent}
use re203_projet_reseau.Router.Exec.Transit.{returned, sock_message-forwarded, sock_message-expired}

module _ (trex_match : Str → Str → Bool) (os : Os) (stack_id : Str) (now : ℕ) where
  -- What the program behind a connection reads of the calls for one message.
  unfoldable pub read_calls : List Effect → Outcome (Option Message)
  read_calls (Effect.send sock bytes ∷ []) = treat_input (some bytes) >>= parse trex_match
  read_calls _ = ok none

  -- A router handles a message, and the next one reads what it has sent.
  unfoldable pub pass_on : World Router → ClientPointer → Message → Outcome (Option Message)
  pass_on w t m = do
    w' ← sock_message os stack_id now w (some m) t
    read_calls (drop (length w.calls) w'.calls)

  -- The message behind the last of some routers, which it passes one after another.
  unfoldable pub journey :
      List (World Router × ClientPointer) → Option Message → Outcome (Option Message)
  journey [] m = ok m
  journey (r ∷ routers) none = ok none
  journey ((w, t) ∷ routers) (some m) = do next ← pass_on w t m; journey routers next

  -- What another program reads of a message: the text it is printed as, framed and unframed, parsed.
  unfoldable pub arrived : Option Message → Outcome (Option Message)
  arrived m = do p ← printed m; q ← treat_input (treat_output p); parse trex_match q

  -- A router handles what it reads.
  unfoldable pub handled : World Router → ClientPointer → Option Message → Outcome (World Router)
  handled w t m = do m' ← arrived m; sock_message os stack_id now w m' t

  -- A text that goes from one program to another as it is.
  abbrev pub Survives : Command → Type 0
  Survives c =
      IsSendable c
      × Knows trex_match c
      × (length (wire c) + 1 ≤ capacity (message_of c))
      × (last? (wire c) ≢ some b'\\')

  module _ (prefixes : IsPrefixSound trex_match) where
    -- What survives the wire arrives.
    pub arrived-wire :
        (k : Command) → Survives k → arrived (some (message_of k)) ≡ ok (some (message_of k))
    unfolding arrived
    arrived-wire k s = parse-to_string trex_match prefixes k s.0 s.1 s.2 s.3

    calls-sent :
        (w : World Router) (c : Client) (k : Command)
        → Survives k
        → read_calls (drop (length w.calls) (w.calls ++ (network_send os c (some (wire k))).1))
          ≡ ok (some (message_of k))
    unfolding network_send send_framed strcopy write_client treat_output read_calls
    calls-sent w c k s =
        ap read_calls
          (drop-length-append w.calls (Effect.send c.sock (treat_output_bytes (wire k)) ∷ []))
        ∙ ap (λ o. o >>= parse trex_match) (treat_input-treat_output (wire k) s.3)
        ∙ parse-wire trex_match prefixes k s.0 s.1

    -- A router that sends the text of a command hands the command on.
    pub pass_on-sent :
        (w : World Router) (t : ClientPointer) (c : Client) (m m' : Message) (k : Command)
        → sock_message os stack_id now w (some m) t ≡ sent os w c m'
        → printed (some m') ≡ ok (some (wire k))
        → Survives k
        → pass_on w t m ≡ ok (some (message_of k))
    unfolding pass_on
    pass_on-sent w t c m m' k e p s =
        ap (λ o. o >>= λ w'. read_calls (drop (length w.calls) w'.calls))
          (e
            ∙ ap
                (λ o. o >>= λ text. ok (record w { calls = w.calls ++ (network_send os c text).1 }))
                p)
        ∙ calls-sent w c k s

-- A router that is not the destination `b` and has a route to it.
pub record IsRelay (b : Str) (r : World Router × ClientPointer) : Type 0 where
  pub other : str_eq b r.0.state.name ≡ false
  pub ahead : Client
  pub to_b : Route r.0 b ahead

-- It has a route back to the source `a`, too.
pub record OnTheWay (a b : Str) (r : World Router × ClientPointer) : Type 0 where
  pub relay : IsRelay b r
  pub back : Client
  pub to_a : Route r.0 a back
  pub ttl : ℤ
  pub configured : r.0.state.config.default_ttl_value ≡ some ttl

abbrev pub AllRelays : Str → List (World Router × ClientPointer) → Type 0
AllRelays b [] = Unit
AllRelays b (r ∷ routers) = IsRelay b r × AllRelays b routers

abbrev pub AllOnTheWay : Str → Str → List (World Router × ClientPointer) → Type 0
AllOnTheWay a b [] = Unit
AllOnTheWay a b (r ∷ routers) = OnTheWay a b r × AllOnTheWay a b routers
