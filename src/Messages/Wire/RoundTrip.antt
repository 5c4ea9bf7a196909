-- ===== src/Messages/Wire/RoundTrip.antt =====
-- `mess__toString`, then the wire, then `mess__parse` (common/messages.c), for every message of the
-- protocol.
use mathlib.Core.List.{List}
use re203_projet_reseau.Prelude.{
  ℕ, ◌≡◌, ◌≤◌, ◌+◌, refl, true, false, some, [], ◌∷◌, Str, ok, Bool, get_or, arith, length, ◌∙◌,
  codes, ◌≢◌, ◌>>=◌,
}
use re203_projet_reseau.Messages.Types.{Acceptance, MessageType}
use re203_projet_reseau.Messages.Regexes.{regex_strtable, first_match, IsPrefixSound}
use re203_projet_reseau.Messages.Regexes.First.{first_from-hit, first_from-miss, first_from-skip}
use re203_projet_reseau.Messages.Cases.{parse_plain}
use re203_projet_reseau.Messages.Parse.{parse, parse_text, parse_case, cases}
use re203_projet_reseau.Messages.Wire.{Command, wire, message_of}
use re203_projet_reseau.Messages.Escape.{treat_input, treat_output}
use re203_projet_reseau.Messages.Escape.RoundTrip.{last?, treat_input-treat_output}
use re203_projet_reseau.Messages.Print.{printed, capacity}
use re203_projet_reseau.Messages.Wire.Printed.{to_string-fits, printed-text}
use re203_projet_reseau.Messages.Wire.Parsed.{
  IsSendable, parse_second_node-words, parse_login-wire, parse_login_as-wire, parse_newlist-wire,
  parse_link-wire, parse_vector-wire, parse_answer-words, parse_probe-words, parse_packet-words,
}

-- The case of the switch in `mess__parse` that a command is for.
abbrev pub case_of : Command → ℕ
case_of (Command.login_as id p) = 10
case_of (Command.login p) = 11
case_of Command.logout = 12
case_of (Command.greeting id) = 13
case_of Command.bye = 14
case_of Command.poll = 15
case_of (Command.newlist l) = 16
case_of Command.neighborhood_ok = 17
case_of (Command.link id) = 18
case_of Command.link_ok = 19
case_of (Command.vector v) = 20
case_of Command.vector_ok = 21
case_of (Command.packet q a b t d) = 22
case_of (Command.packet_ok q a b) = 23
case_of (Command.packet_toofar q a b) = 24
case_of (Command.ping q a b t) = 25
case_of (Command.pong q a b t) = 26
case_of (Command.pong_ttlzero q a b) = 27

-- The earlier patterns that begin with the same bytes.
abbrev pub rivals : Command → List ℕ
rivals (Command.packet_ok q a b) = 22 ∷ []
rivals (Command.packet_toofar q a b) = 22 ∷ 23 ∷ []
rivals (Command.pong_ttlzero q a b) = 26 ∷ []
rivals _ = []

module _ (trex_match : Str → Str → Bool) where
  abbrev pub Misses : Str → List ℕ → Type 0
  Misses s [] = Unit
  Misses s (i ∷ is) = (trex_match (get_or regex_strtable i []) s ≡ false) × Misses s is

  -- The matcher knows the text of a command: it matches the command's own pattern, and no rival.
  abbrev pub Knows : Command → Type 0
  Knows c =
      (trex_match (get_or regex_strtable (case_of c) []) (wire c) ≡ true)
      × Misses (wire c) (rivals c)

  module _ (sound : IsPrefixSound trex_match) where
    first_match-wire :
        (c : Command)
        → Knows c
        → first_match trex_match 0 regex_strtable (wire c) ≡ some (case_of c)
    first_match-wire (Command.packet_ok q a b) k =
        let s = wire (Command.packet_ok q a b) in
        first_from-skip trex_match sound 22 0 22 s refl (omega arith) refl
        ∙ first_from-miss trex_match sound 22 s (omega arith) k.1.0
        ∙ first_from-hit trex_match sound 23 s (omega arith) k.0
    first_match-wire (Command.packet_toofar q a b) k =
        let s = wire (Command.packet_toofar q a b) in
        first_from-skip trex_match sound 22 0 22 s refl (omega arith) refl
        ∙ first_from-miss trex_match sound 22 s (omega arith) k.1.0
        ∙ first_from-miss trex_match sound 23 s (omega arith) k.1.1.0
        ∙ first_from-hit trex_match sound 24 s (omega arith) k.0
    first_match-wire (Command.pong_ttlzero q a b) k =
        let s = wire (Command.pong_ttlzero q a b) in
        first_from-skip trex_match sound 26 0 26 s refl (omega arith) refl
        ∙ first_from-miss trex_match sound 26 s (omega arith) k.1.0
        ∙ first_from-hit trex_match sound 27 s (omega arith) k.0
    first_match-wire c k =
        first_from-skip trex_match sound (case_of c) 0 (case_of c) (wire c) (omega arith)
          (omega arith) refl
        ∙ first_from-hit trex_match sound (case_of c) (wire c) (omega arith) k.0

    parse_case-wire :
        (c : Command) → IsSendable c → parse_case (some (case_of c)) (wire c) ≡ ok (message_of c)
    unfolding parse_case cases
    parse_case-wire (Command.login_as id p) h = parse_login_as-wire id p h.0 h.1
    parse_case-wire (Command.login p) h = parse_login-wire p h
    parse_case-wire (Command.greeting id) h =
        parse_second_node-words MessageType.greeting (codes "greeting") id (omega arith) h
    parse_case-wire (Command.newlist l) h = parse_newlist-wire l h
    parse_case-wire (Command.link id) h = parse_link-wire id h
    parse_case-wire (Command.vector v) h = parse_vector-wire v h
    parse_case-wire (Command.packet q a b t d) h =
        parse_packet-words (codes "packet") q a b (omega arith) h.0 h.1 h.2 t h.3 d
    parse_case-wire (Command.packet_ok q a b) h =
        parse_answer-words (codes "packet") q a b (omega arith) h.0 h.1 h.2 MessageType.packet
          Acceptance.ok (codes "ok")
    parse_case-wire (Command.packet_toofar q a b) h =
        parse_answer-words (codes "packet") q a b (omega arith) h.0 h.1 h.2 MessageType.packet
          Acceptance.toofar (codes "toofar")
    parse_case-wire (Command.ping q a b t) h =
        parse_probe-words (codes "ping") q a b (omega arith) h.0 h.1 h.2 t h.3 MessageType.ping
    parse_case-wire (Command.pong q a b t) h =
        parse_probe-words (codes "pong") q a b (omega arith) h.0 h.1 h.2 t h.3 MessageType.pong
    parse_case-wire (Command.pong_ttlzero q a b) h =
        parse_answer-words (codes "pong") q a b (omega arith) h.0 h.1 h.2 MessageType.pong
          Acceptance.ttlzero (codes "ttlzero")
    parse_case-wire _ h = unfold parse_plain in refl

    parse_text-wire :
        (c : Command) → IsSendable c → Knows c → parse_text trex_match (wire c) ≡ ok (message_of c)
    unfolding parse_text
    parse_text-wire c h k = rw (first_match-wire c k) (parse_case-wire c h)

    -- `mess__parse` turns the words of a command of the protocol into the message for it, if the
    -- names in it are words, its numbers are `int`s, and the matcher knows the text.
    pub parse-wire :
        (c : Command)
        → IsSendable c
        → Knows c
        → parse trex_match (some (wire c)) ≡ ok (some (message_of c))
    unfolding parse
    parse-wire c h k = rw (parse_text-wire c h k, parse)

    -- A message of the protocol survives the way from one program to another: printed by
    -- `mess__toString`, framed by `mess__treatOutput`, unframed by `mess__treatInput` and parsed by
    -- `mess__parse` it is the same message. The text must fit the buffer of `mess__toString` and not
    -- end in a backslash; names are words, numbers are `int`s, and the matcher knows the text.
    pub parse-to_string :
        (c : Command)
        → IsSendable c
        → Knows c
        → length (wire c) + 1 ≤ capacity (message_of c)
        → last? (wire c) ≢ some b'\\'
        → (do
          p ← printed (some (message_of c))
          q ← treat_input (treat_output p)
          parse trex_match q)
          ≡ ok (some (message_of c))
    parse-to_string c h k fits tail =
        rw
          (
            printed-text (some (message_of c)) (wire c) (to_string-fits c fits),
            treat_input-treat_output (wire c) tail,
          )
          (parse-wire c h k)
