-- ===== src/Net/Client.antt =====
-- common/client.h and common/client.c. What the operating system says of a socket is a parameter.
use re203_projet_reseau.Prelude.{
  ℕ, ◌+◌, Bool, true, false, ◌&&◌, Option, none, some, Str, Pointer, str_eq, length, leb,
  if◌then◌else◌, ℤ, ◌==ℤ◌, Outcome, ok, fault, null_pointer, out_of_bounds, uninitialised,
}

-- `BUF_SIZE` of common/sock.h
abbrev pub buf_size : ℕ
buf_size = 1024

pub record Client : Type 0 where
  pub sock : ℤ
  pub id : Str

-- `a->sock == b->sock && strcmp (a->id, b->id) == 0`
unfoldable pub same_client : Client → Client → Bool
unfolding str_eq
same_client a b = (a.sock ==ℤ b.sock) && str_eq a.id b.id

unfoldable pub client_compare : Option Client → Option Client → Bool
client_compare none none = true
client_compare none (some b) = false
client_compare (some a) none = false
client_compare (some a) (some b) = same_client a b

-- `strcpy` into the array of `BUF_SIZE` bytes.
unfoldable pub client_set_id : Client → Pointer → Outcome Client
client_set_id c none = fault null_pointer
client_set_id c (some id) =
    if leb (length id + 1) buf_size then ok (record c { id = id }) else fault out_of_bounds

unfoldable pub client_get_id : Client → Str
client_get_id c = c.id

-- What `getsockname` gives of a socket: `inet_ntoa` of the address and `ntohs` of the port.
pub record SocketName : Type 0 where
  pub address : Str
  pub port : ℤ

module _ (getsockname : ℤ → Option SocketName) where
  -- On an error the function ends with no `return`.
  unfoldable pub client_get_address : Client → Outcome Str
  client_get_address c = elim (getsockname c.sock) [
    | none ↦ fault uninitialised
    | some n ↦ ok n.address
  ]

  unfoldable pub client_get_port : Client → Outcome ℤ
  client_get_port c = elim (getsockname c.sock) [ none ↦ fault uninitialised | some n ↦ ok n.port ]
