-- ===== src/Net/Sending.antt =====
-- common/net.c: `network__send`, `network__broadcast` and `broadcast`.
pub mod Broadcast
use re203_projet_reseau.Prelude.{
  ℕ, Bool, true, false, ◌||◌, List, [], ◌∷◌, ◌++◌, Option, none, some, Str, Pointer, if◌then◌else◌,
  ℤ, pos, ◌+ℤ◌, ltb_ℤ, ◌==ℤ◌, ◌-◌, take, length, codes,
}
use re203_projet_reseau.Util.{strcopy}
use re203_projet_reseau.Messages.Escape.{treat_output}
use re203_projet_reseau.Net.Client.{Client, buf_size}
use re203_projet_reseau.Net.Sockets.{Os, Effect, write_client, send_error}
use re203_projet_reseau.Net.Network.{Network}

unfoldable pub send_framed : Os → Client → Pointer → ℤ × List Effect
send_framed os c none = (send_error, [])
send_framed os c (some text) = write_client os c.sock text

-- `network__send`
unfoldable pub network_send : Os → Client → Pointer → ℤ × List Effect
network_send os c message = send_framed os c (treat_output (strcopy message))

-- The loop of `network__broadcast`: the sum, the flag `failed` and the calls so far.
unfoldable pub broadcast_from :
    Os → Pointer → ℤ → Bool → List Effect → List Client → ℤ × List Effect
broadcast_from os message sum failed calls [] = (if failed then send_error else sum, calls)
broadcast_from os message sum failed calls (c ∷ clients) =
    let r = network_send os c message in
    broadcast_from os message (sum +ℤ r.0) (failed || ltb_ℤ r.0 (pos 0)) (calls ++ r.1) clients

unfoldable pub network_broadcast : Os → Network → Pointer → ℤ × List Effect
network_broadcast os net message = broadcast_from os message (pos 0) false [] net.clients

-- `strncat (message, s, sizeof message - strlen (message) - 1)`
unfoldable pub strncat : Str → Str → Str
strncat message s = message ++ take (buf_size - length message - 1) s

-- The text that one client gets, behind what `message` holds from the one before.
unfoldable pub prefixed : Client → Str → Bool → Str → Str
prefixed sender buffer true message = strncat message buffer
prefixed sender buffer false message =
    strncat (strncat (take (buf_size - 1) sender.id) (codes " : ")) buffer

-- The loop of `broadcast` over the first `actual` clients; `message` is not emptied between them.
unfoldable pub broadcast_to : Os → Client → Str → Bool → Str → List Client → List Effect
broadcast_to os sender buffer from_server message [] = []
broadcast_to os sender buffer from_server message (c ∷ clients) =
    let rest = broadcast_to os sender buffer from_server message clients in
    let text = prefixed sender buffer from_server message in
    let sent = broadcast_to os sender buffer from_server text clients in
    if sender.sock ==ℤ c.sock then rest else (write_client os c.sock text).1 ++ sent

-- `broadcast`, which nothing calls.
unfoldable pub broadcast : Os → List Client → Client → ℕ → Str → Bool → List Effect
broadcast os clients sender actual buffer from_server =
    broadcast_to os sender buffer from_server [] (take actual clients)
