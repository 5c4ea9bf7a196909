-- ===== src/Messages/Cases.antt =====
-- common/messages.c: `str_sub`, and what the cases of the switch in `mess__parse` do.
use re203_projet_reseau.Prelude.{
  ℕ, ◌+◌, ◌-◌, ◌%◌, ◌^◌, ◌&&◌, [], none, some, Str, Pointer, length, take, drop, leb, ltb,
  if◌then◌else◌, Outcome, ok, fault, null_pointer, out_of_bounds,
}
use re203_projet_reseau.Libc.Tokens.{strstr}
use re203_projet_reseau.Util.{strcopy}
use re203_projet_reseau.Messages.Types.{Acceptance, MessageType, Message, init_message}
use re203_projet_reseau.Messages.Reader.{
  ◌>>=◌, ◌>>◌, give, next, next_copy, next_int, next_by, lift, run,
}

-- `unsigned int` from `strlen (s) - 1`
abbrev pub last_index : Str → ℕ
last_index s = (length s + 2 ^ 32 - 1) % 2 ^ 32

-- The bytes from `start` to `end`; the byte at `strlen (s)` is the terminator.
unfoldable pub str_sub : Pointer → ℕ → ℕ → Pointer
str_sub none start end = none
str_sub (some s) start end =
    if ltb start end && leb end (length s)
    then some (take (end - start + 1) (drop start s))
    else none

-- Cases 0 and 1.
unfoldable pub parse_file : MessageType → Str → Outcome Message
parse_file t s =
    ok (record init_message { type = t; s_parameter = str_sub (some s) 5 (last_index s) })

-- Cases that read nothing: 2, 9, 12, 14, 15, 17, 19, 21, 29, 32 and the default.
unfoldable pub parse_plain : MessageType → Acceptance → Str → Outcome Message
parse_plain t a s = ok (record init_message { type = t; accept = a })

-- Cases 3 and 4.
unfoldable pub parse_weighted_link : MessageType → Str → Outcome Message
parse_weighted_link t = run (do
  next
  next
  n1 ← next_copy
  n2 ← next_copy
  w ← next_int
  give (record init_message { type = t; node1 = n1; node2 = n2; n_parameter = w }))

-- Case 5.
unfoldable pub parse_dellink : Str → Outcome Message
parse_dellink = run (do
  next
  next
  n1 ← next_copy
  n2 ← next_copy
  give (record init_message { type = MessageType.dellink; node1 = n1; node2 = n2 }))

-- Cases 6, 8, 13 and 28: the second token is a node.
unfoldable pub parse_second_node : MessageType → Str → Outcome Message
parse_second_node t =
    run (do next; n1 ← next_copy; give (record init_message { type = t; node1 = n1 }))

-- The address `strstr (src, node) + strlen (node) + 2` as a text, and its last byte cut off.
unfoldable pub quoted_text : Str → Str → Outcome Str
quoted_text src node = elim (strstr src node) [
  | none ↦ fault null_pointer
  | some i ↦
      let start = i + length node + 2 in
      if ltb start (length src)
      then ok (take (length src - start - 1) (drop start src))
      else fault out_of_bounds
]

unfoldable pub quote_for : Str → Pointer → Outcome Str
quote_for src none = fault null_pointer
quote_for src (some node) = quoted_text src node

-- Case 7. `strtok` works on a copy of the text.
unfoldable pub parse_message : Str → Outcome Message
parse_message src =
    run
      (do
        next
        n1 ← next_copy
        text ← lift (quote_for src n1)
        give (record init_message {
          type = MessageType.message;
          node1 = n1;
          s_parameter = some text;
        }))
      src

-- Case 10.
unfoldable pub parse_login_as : Str → Outcome Message
parse_login_as = run (do
  next
  next
  next
  n1 ← next_copy
  next
  p ← next_int
  give (record init_message { type = MessageType.login; node1 = n1; n_parameter = p }))

-- Case 11.
unfoldable pub parse_login : Str → Outcome Message
parse_login = run (do
  next
  next
  next
  p ← next_int
  give (record init_message { type = MessageType.login; n_parameter = p }))

-- Case 16.
unfoldable pub parse_newlist : Str → Outcome Message
parse_newlist = run (do
  next
  next
  l ← next_copy
  give (record init_message { type = MessageType.neighborhood; s_parameter = l }))

-- Case 18.
unfoldable pub parse_link : Str → Outcome Message
parse_link = run (do
  next
  next
  n1 ← next_copy
  give (record init_message { type = MessageType.link; node1 = n1 }))

-- Case 20.
unfoldable pub parse_vector : Str → Outcome Message
parse_vector = run (do
  next
  v ← next_copy
  give (record init_message { type = MessageType.vector; s_parameter = v }))

-- `strcopy (strtok (NULL, "\0") + 5)`
unfoldable pub skip_five : Pointer → Outcome Pointer
skip_five none = fault null_pointer
skip_five (some s) =
    if leb 5 (length s) then ok (strcopy (some (drop 5 s))) else fault out_of_bounds

-- Case 22.
unfoldable pub parse_packet : Str → Outcome Message
parse_packet = run (do
  next
  next
  q ← next_int
  next
  n1 ← next_copy
  next
  n2 ← next_copy
  next
  ttl ← next_int
  rest ← next_by []
  text ← lift (skip_five rest)
  give (record init_message {
    type = MessageType.packet;
    seqnum = q;
    node1 = n1;
    node2 = n2;
    n_parameter = ttl;
    s_parameter = text;
  }))

-- Cases 23, 24 and 27: sequence number, source and destination.
unfoldable pub parse_answer : MessageType → Acceptance → Str → Outcome Message
parse_answer t a = run (do
  next
  next
  q ← next_int
  next
  n1 ← next_copy
  next
  n2 ← next_copy
  give (record init_message { type = t; accept = a; seqnum = q; node1 = n1; node2 = n2 }))

-- Cases 25 and 26.
unfoldable pub parse_probe : MessageType → Str → Outcome Message
parse_probe t = run (do
  next
  next
  q ← next_int
  next
  n1 ← next_copy
  next
  n2 ← next_copy
  next
  ttl ← next_int
  give (record init_message { type = t; seqnum = q; node1 = n1; node2 = n2; n_parameter = ttl }))

-- Cases 30 and 31: a constant parameter.
unfoldable pub parse_empty_list : MessageType → Str → Str → Outcome Message
parse_empty_list t l s = ok (record init_message { type = t; s_parameter = some l })
