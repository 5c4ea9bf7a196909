-- ===== src/Messages/Print.antt =====
-- common/messages.c: `mess__toString`. The text is written by `sprintf` to a buffer of
-- `50 + strlen (s_parameter)` bytes.
use re203_projet_reseau.Prelude.{
  ℕ, ◌+◌, ◌++◌, Option, none, some, Str, Pointer, codes, length, leb, if◌then◌else◌, Outcome, ok,
  fault, out_of_bounds, uninitialised, deref, ◌>>=◌,
}
use re203_projet_reseau.Libc.Decimal.{show_int}
use re203_projet_reseau.Messages.Types.{Acceptance, MessageType, Message}

-- The size of the buffer `out`.
abbrev pub capacity : Message → ℕ
capacity m = 50 + elim m.s_parameter [ none ↦ 0 | some s ↦ length s ]

-- `seqnum %d src %s dst %s`, and what comes behind it.
unfoldable pub print_addresses : Message → Str → Outcome Str
print_addresses m rest = do
  n1 ← deref m.node1
  n2 ← deref m.node2
  ok (
      codes "seqnum "
      ++ (show_int m.seqnum ++ (codes " src " ++ (n1 ++ (codes " dst " ++ (n2 ++ rest))))))

unfoldable pub print_login : Message → Outcome Str
print_login m = elim m.node1 [
  | none ↦ ok (codes "log in port " ++ show_int m.n_parameter)
  | some id ↦ ok (codes "log in as " ++ (id ++ (codes " port " ++ show_int m.n_parameter)))
]

unfoldable pub print_neighborhood : Message → Outcome Str
print_neighborhood m = elim m.accept [
  | Acceptance.ok ↦ ok (codes "neighborhood ok")
  | _ ↦ do l ← deref m.s_parameter; ok (codes "neighborhood newlist " ++ l)
]

unfoldable pub print_link : Message → Outcome Str
print_link m = elim m.accept [
  | Acceptance.ok ↦ ok (codes "link ok")
  | _ ↦ do id ← deref m.node1; ok (codes "link id " ++ id)
]

unfoldable pub print_vector : Message → Outcome Str
print_vector m = elim m.accept [
  | Acceptance.ok ↦ ok (codes "vector ok")
  | _ ↦ do v ← deref m.s_parameter; ok (codes "vector " ++ v)
]

unfoldable pub print_packet : Message → Outcome Str
print_packet m = elim m.accept [
  | Acceptance.ok ↦ do t ← print_addresses m (codes " ok"); ok (codes "packet " ++ t)
  | Acceptance.toofar ↦ do t ← print_addresses m (codes " toofar"); ok (codes "packet " ++ t)
  | _ ↦ do
    d ← deref m.s_parameter
    t ← print_addresses m (codes " ttl " ++ (show_int m.n_parameter ++ (codes " data " ++ d)))
    ok (codes "packet " ++ t)
]

unfoldable pub print_ping : Message → Outcome Str
print_ping m = do
  t ← print_addresses m (codes " ttl " ++ show_int m.n_parameter)
  ok (codes "ping " ++ t)

unfoldable pub print_pong : Message → Outcome Str
print_pong m = elim m.accept [
  | Acceptance.ttlzero ↦ do t ← print_addresses m (codes " ttlzero"); ok (codes "pong " ++ t)
  | _ ↦ do t ← print_addresses m (codes " ttl " ++ show_int m.n_parameter); ok (codes "pong " ++ t)
]

-- A case that writes the text.
abbrev pub written : Outcome Str → Outcome Pointer
written r = r >>= λ text. ok (some text)

-- The switch: the text that `sprintf` writes, none in the default case, which writes nothing.
unfoldable pub print_as : MessageType → Message → Outcome Pointer
print_as MessageType.login m = written (print_login m)
print_as MessageType.logout m = ok (some (codes "log out"))
print_as MessageType.greeting m = do id ← deref m.node1; ok (some (codes "greeting " ++ id))
print_as MessageType.bye m = ok (some (codes "bye"))
print_as MessageType.poll m = ok (some (codes "poll"))
print_as MessageType.neighborhood m = written (print_neighborhood m)
print_as MessageType.link m = written (print_link m)
print_as MessageType.vector m = written (print_vector m)
print_as MessageType.packet m = written (print_packet m)
print_as MessageType.ping m = written (print_ping m)
print_as MessageType.pong m = written (print_pong m)
print_as _ m = ok none

-- `sprintf` writes the text and its terminator.
unfoldable pub write_buffer : ℕ → Str → Outcome Str
write_buffer size text = if leb (length text + 1) size then ok text else fault out_of_bounds

-- What `mess__toString` returns: NULL, the buffer as `malloc` gave it, or the buffer with a text.
pub data Buffer : Type 0 where
  null unwritten : Buffer
  text : Str → Buffer

-- The buffer `out`, of so many bytes, behind the switch.
unfoldable pub out_buffer : ℕ → Pointer → Outcome Buffer
out_buffer size none = ok Buffer.unwritten
out_buffer size (some t) = do out ← write_buffer size t; ok (Buffer.text out)

unfoldable pub print_text : Message → Outcome Buffer
print_text m = do t ← print_as m.type m; out_buffer (capacity m) t

-- `mess__toString`
unfoldable pub to_string : Option Message → Outcome Buffer
to_string none = ok Buffer.null
to_string (some m) = print_text m

-- A caller that reads the text: the bytes that nothing has written are not a text.
unfoldable pub read_buffer : Buffer → Outcome Pointer
read_buffer Buffer.null = ok none
read_buffer Buffer.unwritten = fault uninitialised
read_buffer (Buffer.text t) = ok (some t)

-- The text that a caller hands on from `mess__toString`.
unfoldable pub printed : Option Message → Outcome Pointer
printed m = do out ← to_string m; read_buffer out
