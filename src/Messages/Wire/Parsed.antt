-- ===== src/Messages/Wire/Parsed.antt =====
-- What the cases of the switch in `mess__parse` (common/messages.c) read of texts that are words
-- with single spaces between.
use re203_projet_reseau.Prelude.{◌++◌, arith, codes, ◌≡◌, ok, some, Str, ℤ, [], ◌∷◌, ◌∙◌}
use re203_projet_reseau.Libc.Decimal.{show_int, IsInt}
use re203_projet_reseau.Libc.Tokens.{IsWord}
use re203_projet_reseau.Util.{strcopy}
use re203_projet_reseau.Messages.Types.{Acceptance, MessageType, init_message}
use re203_projet_reseau.Messages.Reader.Steps.{
  next-word, copy-word, copy-end, int-word, int-end, rest-end, lift-ok, run-ok,
}
use re203_projet_reseau.Messages.Cases.{
  skip_five, parse_vector, parse_probe, parse_packet, parse_newlist, parse_login_as, parse_link,
  parse_answer, parse_second_node, parse_login,
}
use re203_projet_reseau.Messages.Wire.{routed, message_of, addresses, wire, Command, unwords}

-- What a command must be made of: words for names and lists, and numbers in the range of `int`. The
-- data of a packet is any text.
abbrev pub IsSendable : Command → Type 0
IsSendable (Command.login_as id p) = IsWord id × IsInt p
IsSendable (Command.login p) = IsInt p
IsSendable (Command.greeting id) = IsWord id
IsSendable (Command.newlist l) = IsWord l
IsSendable (Command.link id) = IsWord id
IsSendable (Command.vector v) = IsWord v
IsSendable (Command.packet q a b t d) = IsInt q × IsWord a × IsWord b × IsInt t
IsSendable (Command.packet_ok q a b) = IsInt q × IsWord a × IsWord b
IsSendable (Command.packet_toofar q a b) = IsInt q × IsWord a × IsWord b
IsSendable (Command.ping q a b t) = IsInt q × IsWord a × IsWord b × IsInt t
IsSendable (Command.pong q a b t) = IsInt q × IsWord a × IsWord b × IsInt t
IsSendable (Command.pong_ttlzero q a b) = IsInt q × IsWord a × IsWord b
IsSendable _ = Unit

-- The literal words of the protocol.
IsWord-log : IsWord (codes "log")
IsWord-log = omega arith

IsWord-in : IsWord (codes "in")
IsWord-in = omega arith

IsWord-seqnum : IsWord (codes "seqnum")
IsWord-seqnum = omega arith

IsWord-src : IsWord (codes "src")
IsWord-src = omega arith

IsWord-dst : IsWord (codes "dst")
IsWord-dst = omega arith

IsWord-ttl : IsWord (codes "ttl")
IsWord-ttl = omega arith

pub parse_second_node-words :
    (t : MessageType) (w id : Str)
    → IsWord w
    → IsWord id
    → parse_second_node t (unwords (w ∷ id ∷ []))
      ≡ ok (record init_message { type = t; node1 = some id })
unfolding parse_second_node
parse_second_node-words t w id hw hid = run-ok _ _ (next-word _ w id hw ∙ copy-end _ id hid)

pub parse_login-wire :
    (p : ℤ) → IsInt p → parse_login (wire (Command.login p)) ≡ ok (message_of (Command.login p))
unfolding parse_login
parse_login-wire p h = run-ok _ _ (
    next-word _ (codes "log") _ IsWord-log
    ∙ next-word _ (codes "in") _ IsWord-in
    ∙ next-word _ (codes "port") _ (omega arith)
    ∙ int-end _ p h)

pub parse_login_as-wire :
    (id : Str) (p : ℤ)
    → IsWord id
    → IsInt p
    → parse_login_as (wire (Command.login_as id p)) ≡ ok (message_of (Command.login_as id p))
unfolding parse_login_as
parse_login_as-wire id p hid h = run-ok _ _ (
    next-word _ (codes "log") _ IsWord-log
    ∙ next-word _ (codes "in") _ IsWord-in
    ∙ next-word _ (codes "as") _ (omega arith)
    ∙ copy-word _ id _ hid
    ∙ next-word _ (codes "port") _ (omega arith)
    ∙ int-end _ p h)

pub parse_newlist-wire :
    (l : Str)
    → IsWord l
    → parse_newlist (wire (Command.newlist l)) ≡ ok (message_of (Command.newlist l))
unfolding parse_newlist
parse_newlist-wire l h = run-ok _ _ (
    next-word _ (codes "neighborhood") _ (omega arith)
    ∙ next-word _ (codes "newlist") _ (omega arith)
    ∙ copy-end _ l h)

pub parse_link-wire :
    (id : Str) → IsWord id → parse_link (wire (Command.link id)) ≡ ok (message_of (Command.link id))
unfolding parse_link
parse_link-wire id h = run-ok _ _ (
    next-word _ (codes "link") _ (omega arith)
    ∙ next-word _ (codes "id") _ (omega arith)
    ∙ copy-end _ id h)

pub parse_vector-wire :
    (v : Str)
    → IsWord v
    → parse_vector (wire (Command.vector v)) ≡ ok (message_of (Command.vector v))
unfolding parse_vector
parse_vector-wire v h = run-ok _ _ (next-word _ (codes "vector") _ (omega arith) ∙ copy-end _ v h)

module _ (w : Str) (q : ℤ) (a b : Str) (hw : IsWord w) (hq : IsInt q) (ha : IsWord a)
    (hb : IsWord b) where
  pub parse_answer-words :
      (t : MessageType) (c : Acceptance) (answer : Str)
      → parse_answer t c (unwords (w ∷ addresses q a b (answer ∷ [])))
        ≡ ok (record (routed t q a b) { accept = c })
  unfolding parse_answer
  parse_answer-words t c answer = run-ok _ _ (
      next-word _ w _ hw
      ∙ next-word _ (codes "seqnum") _ IsWord-seqnum
      ∙ int-word _ q _ hq
      ∙ next-word _ (codes "src") _ IsWord-src
      ∙ copy-word _ a _ ha
      ∙ next-word _ (codes "dst") _ IsWord-dst
      ∙ copy-word _ b _ hb)

  module _ (ttl : ℤ) (httl : IsInt ttl) where
    pub parse_probe-words :
        (t : MessageType)
        → parse_probe t (unwords (w ∷ addresses q a b (codes "ttl" ∷ show_int ttl ∷ [])))
          ≡ ok (record (routed t q a b) { n_parameter = ttl })
    unfolding parse_probe
    parse_probe-words t = run-ok _ _ (
        next-word _ w _ hw
        ∙ next-word _ (codes "seqnum") _ IsWord-seqnum
        ∙ int-word _ q _ hq
        ∙ next-word _ (codes "src") _ IsWord-src
        ∙ copy-word _ a _ ha
        ∙ next-word _ (codes "dst") _ IsWord-dst
        ∙ copy-word _ b _ hb
        ∙ next-word _ (codes "ttl") _ IsWord-ttl
        ∙ int-end _ ttl httl)

    skip_data : (d : Str) → skip_five (some (codes "data" ++ b' ' ∷ d)) ≡ ok (some d)
    unfolding skip_five strcopy
    skip_data d = ground arith

    pub parse_packet-words :
        (d : Str)
        → parse_packet
            (unwords (w ∷ addresses q a b (codes "ttl" ∷ show_int ttl ∷ codes "data" ∷ d ∷ [])))
          ≡ ok
              (record (routed MessageType.packet q a b) { n_parameter = ttl; s_parameter = some d })
    unfolding parse_packet
    parse_packet-words d = run-ok _ _ (
        next-word _ w _ hw
        ∙ next-word _ (codes "seqnum") _ IsWord-seqnum
        ∙ int-word _ q _ hq
        ∙ next-word _ (codes "src") _ IsWord-src
        ∙ copy-word _ a _ ha
        ∙ next-word _ (codes "dst") _ IsWord-dst
        ∙ copy-word _ b _ hb
        ∙ next-word _ (codes "ttl") _ IsWord-ttl
        ∙ int-word _ ttl _ httl
        ∙ rest-end _ b'd' (codes "ata" ++ b' ' ∷ d)
        ∙ lift-ok _ _ _ (skip_data d))
