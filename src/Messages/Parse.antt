-- ===== src/Messages/Parse.antt =====
-- common/messages.c: the switch in `mess__parse`, and `mess__parse`.
pub mod FileNames
pub mod MissingNumber
pub mod Quoted
use re203_projet_reseau.Prelude.{
  ℕ, ◌+◌, ◌-◌, ◌%◌, ◌^◌, Bool, ◌&&◌, List, [], ◌∷◌, Option, none, some, Str, Pointer, codes, length,
  take, drop, get_elem?, leb, ltb, if◌then◌else◌, Outcome, ok, fault, null_pointer, out_of_bounds,
}
use re203_projet_reseau.Libc.Tokens.{strtok, strstr}
use re203_projet_reseau.Util.{strcopy}
use re203_projet_reseau.Messages.Types.{Acceptance, MessageType, Message, init_message}
use re203_projet_reseau.Messages.Reader.{
  ◌>>=◌, ◌>>◌, give, next, next_copy, next_int, next_by, lift, run,
}
use re203_projet_reseau.Messages.Regexes.{regex_strtable, first_match}
use re203_projet_reseau.Messages.Cases.{
  last_index, str_sub, parse_file, parse_plain, parse_weighted_link, parse_dellink,
  parse_second_node, quoted_text, quote_for, parse_message, parse_login_as, parse_login,
  parse_newlist, parse_link, parse_vector, skip_five, parse_packet, parse_answer, parse_probe,
  parse_empty_list,
}

-- The switch: case `i` is entry `i`.
unfoldable pub cases : List (Str → Outcome Message)
cases =
    parse_file MessageType.load
    ∷ parse_file MessageType.save
    ∷ parse_plain MessageType.show Acceptance.not
    ∷ parse_weighted_link MessageType.addlink
    ∷ parse_weighted_link MessageType.updatelink
    ∷ parse_dellink
    ∷ parse_second_node MessageType.disconnect
    ∷ parse_message
    ∷ parse_second_node MessageType.route
    ∷ parse_plain MessageType.routetable Acceptance.not
    ∷ parse_login_as
    ∷ parse_login
    ∷ parse_plain MessageType.logout Acceptance.not
    ∷ parse_second_node MessageType.greeting
    ∷ parse_plain MessageType.bye Acceptance.not
    ∷ parse_plain MessageType.poll Acceptance.not
    ∷ parse_newlist
    ∷ parse_plain MessageType.neighborhood Acceptance.ok
    ∷ parse_link
    ∷ parse_plain MessageType.link Acceptance.ok
    ∷ parse_vector
    ∷ parse_plain MessageType.vector Acceptance.ok
    ∷ parse_packet
    ∷ parse_answer MessageType.packet Acceptance.ok
    ∷ parse_answer MessageType.packet Acceptance.toofar
    ∷ parse_probe MessageType.ping
    ∷ parse_probe MessageType.pong
    ∷ parse_answer MessageType.pong Acceptance.ttlzero
    ∷ parse_second_node MessageType.ping
    ∷ parse_plain MessageType.quit Acceptance.not
    ∷ parse_empty_list MessageType.neighborhood []
    ∷ parse_empty_list MessageType.vector (codes "[]")
    ∷ parse_plain MessageType.network_debug Acceptance.not
    ∷ []

unfoldable pub parse_case : Option ℕ → Str → Outcome Message
parse_case none s = parse_plain MessageType.none Acceptance.not s
parse_case (some i) s = elim (get_elem? cases i) [
  | none ↦ parse_plain MessageType.none Acceptance.not s
  | some f ↦ f s
]

module _ (trex_match : Str → Str → Bool) where
  unfoldable pub parse_text : Str → Outcome Message
  parse_text s = parse_case (first_match trex_match 0 regex_strtable s) s

  -- `mess__parse`
  unfoldable pub parse : Pointer → Outcome (Option Message)
  parse none = ok none
  parse (some s) = elim (parse_text s) [ ok m ↦ ok (some m) | fault e ↦ fault e ]
