-- ===== src/Net/Sockets.antt =====
-- common/net.c: the functions that call the operating system. Its answers are a parameter, the record
-- `Os`; the calls that a program makes are a list of effects.
use re203_projet_reseau.Prelude.{
  ℕ, ◌%◌, ◌^◌, List, [], ◌∷◌, Option, none, some, Str, length, if◌then◌else◌, ◌==◌, ℤ, pos, negsuc,
  ◌==ℤ◌, ltb_ℤ,
}

-- `NB_CLIENTS`, the size of the array and of the queue of `listen`.
abbrev pub nb_clients_max : ℕ
nb_clients_max = 100

pub data Effect : Type 0 where
  close : ℤ → Effect
  send : ℤ → Str → Effect

-- What the calls of `socket`, `bind`, `listen`, `gethostbyname`, `connect`, `recv` and `send` answer.
-- `recv` answers the bytes that it has read, none for an error, and at most as many as it may read.
pub record Os : Type 0 where
  pub socket : ℤ
  pub bind : ℤ → ℕ → ℤ
  pub listen : ℤ → ℕ → ℤ
  pub gethostbyname : Str → Option ℕ
  pub connect : ℤ → ℕ → ℕ → ℤ
  pub recv : ℤ → ℕ → Option (List ℕ)
  pub send : ℤ → Str → ℤ

-- `INVALID_SOCKET` and `SOCKET_ERROR`
abbrev pub socket_error : ℤ
socket_error = negsuc 0

-- `NETWORK__CONNECTION_ERROR` and `NETWORK__SEND_ERROR`
abbrev pub connection_error : ℤ
connection_error = negsuc 0

abbrev pub send_error : ℤ
send_error = negsuc 1

-- `htons` takes 16 bits of the port.
abbrev pub htons : ℕ → ℕ
htons port = port % 2 ^ 16

-- None when the process exits.
unfoldable pub init_server_connection : Os → ℕ → Option ℤ
init_server_connection os port =
    if os.socket ==ℤ socket_error
    then none
    else if os.bind os.socket (htons port) ==ℤ socket_error
    then none
    else if os.listen os.socket nb_clients_max ==ℤ socket_error
    then none
    else some os.socket

unfoldable pub init_client_connection : Os → Str → ℕ → ℤ
init_client_connection os address port =
    if os.socket ==ℤ socket_error then connection_error else elim (os.gethostbyname address) [
      | none ↦ connection_error
      | some host ↦
          if os.connect os.socket host (htons port) ==ℤ socket_error
          then connection_error
          else os.socket
    ]

-- The text in a buffer ends at its first zero byte.
unfoldable pub c_string : List ℕ → Str
c_string [] = []
c_string (c ∷ s) = let rest = c_string s in if c == 0 then [] else c ∷ rest

-- The number of bytes, 0 for an error, and the text in the buffer.
unfoldable pub read_client : Os → ℤ → ℕ × Str
read_client os sock = elim (os.recv sock 1023) [
  | none ↦ (0, [])
  | some bytes ↦ (length bytes, c_string bytes)
]

unfoldable pub write_client : Os → ℤ → Str → ℤ × List Effect
write_client os sock buffer = (
  if ltb_ℤ (os.send sock buffer) (pos 0) then send_error else pos 0,
  Effect.send sock buffer ∷ [],
)
