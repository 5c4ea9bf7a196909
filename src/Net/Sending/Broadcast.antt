-- ===== src/Net/Sending/Broadcast.antt =====
-- What `network__broadcast` (common/net.c) sends and returns.
use mathlib.Core.List.{append-nil, append_assoc}
use mathlib.Core.Path.{sym}
use re203_projet_reseau.Util.{strcopy}
use re203_projet_reseau.Prelude.{
  ◌≡◌, refl, Bool, true, false, ◌||◌, Bool-cases, inl, inr, ◌∙◌, ap, List, [], ◌∷◌, ◌++◌, map, some,
  Str, if◌then◌else◌, ℤ, pos, ◌+ℤ◌, ltb_ℤ,
}
use re203_projet_reseau.Messages.Escape.{treat_output, treat_output_bytes}
use re203_projet_reseau.Net.Client.{Client}
use re203_projet_reseau.Net.Sockets.{Os, Effect, write_client, send_error}
use re203_projet_reseau.Net.Network.{Network}
use re203_projet_reseau.Net.Sending.{network_send, send_framed, broadcast_from, network_broadcast}

-- `send` fails for some client of the list.
abbrev pub some_fails : Os → Str → List Client → Bool
some_fails os frame [] = false
some_fails os frame (c ∷ clients) =
    ltb_ℤ (os.send c.sock frame) (pos 0) || some_fails os frame clients

-- One call of `send` for each client.
abbrev pub one_each : Str → List Client → List Effect
one_each frame clients = map (λ c. Effect.send c.sock frame) clients

module _ (os : Os) (s : Str) where
  send_one :
      (c : Client)
      → network_send os c (some s) ≡ (
        if ltb_ℤ (os.send c.sock (treat_output_bytes s)) (pos 0) then send_error else pos 0,
        Effect.send c.sock (treat_output_bytes s) ∷ [],
      )
  unfolding network_send send_framed write_client strcopy treat_output
  send_one c = refl

  broadcast_from-cons :
      (sum : ℤ) (failed : Bool) (calls : List Effect) (c : Client) (clients : List Client)
      → broadcast_from os (some s) sum failed calls (c ∷ clients)
        ≡ broadcast_from os
            (some s)
            (sum +ℤ (network_send os c (some s)).0)
            (failed || ltb_ℤ (network_send os c (some s)).0 (pos 0))
            (calls ++ (network_send os c (some s)).1)
            clients
  unfolding broadcast_from
  broadcast_from-cons sum failed calls c clients = refl

  broadcast_from-calls :
      (clients : List Client) (sum : ℤ) (failed : Bool) (calls : List Effect)
      → (broadcast_from os (some s) sum failed calls clients).1
        ≡ calls ++ one_each (treat_output_bytes s) clients
  unfolding broadcast_from
  broadcast_from-calls [] sum failed calls = sym (append-nil calls)
  broadcast_from-calls (c ∷ clients) sum failed calls =
      ap (λ p. p.1) (broadcast_from-cons sum failed calls c clients)
      ∙ broadcast_from-calls clients _ _ _
      ∙ ap (λ p. (calls ++ p.1) ++ one_each (treat_output_bytes s) clients) (send_one c)
      ∙ append_assoc calls (_ ∷ []) (one_each (treat_output_bytes s) clients)

  broadcast_from-failed :
      (clients : List Client) (sum : ℤ) (calls : List Effect)
      → (broadcast_from os (some s) sum true calls clients).0 ≡ send_error
  unfolding broadcast_from
  broadcast_from-failed [] sum calls = refl
  broadcast_from-failed (c ∷ clients) sum calls =
      broadcast_from-failed clients (sum +ℤ (network_send os c (some s)).0)
        (calls ++ (network_send os c (some s)).1)

  broadcast_from-result :
      (clients : List Client) (calls : List Effect)
      → (broadcast_from os (some s) (pos 0) false calls clients).0
        ≡ (if some_fails os (treat_output_bytes s) clients then send_error else pos 0)
  unfolding broadcast_from ◌+ℤ◌
  broadcast_from-result [] calls = refl
  broadcast_from-result (c ∷ clients) calls =
      elim (Bool-cases (ltb_ℤ (os.send c.sock (treat_output_bytes s)) (pos 0))) [
        | inl fails ↦
            rw (broadcast_from-cons (pos 0) false calls c clients, send_one c, fails)
              (broadcast_from-failed clients _ _)
        | inr works ↦
            rw (broadcast_from-cons (pos 0) false calls c clients, send_one c, works)
              (broadcast_from-result clients _)
      ]

-- A text is sent to the clients in the order of the array, once to each, escaped and with its
-- final star; a failure for one client does not stop the others. The result is the error code when
-- some call of `send` fails and 0 otherwise, whatever the number of bytes sent.
pub network_broadcast-each :
    (os : Os) (net : Network) (s : Str)
    → network_broadcast os net (some s) ≡ (
      if some_fails os (treat_output_bytes s) net.clients then send_error else pos 0,
      one_each (treat_output_bytes s) net.clients,
    )
unfolding network_broadcast
network_broadcast-each os net s =
    let result = broadcast_from-result os s net.clients [] in
    let calls = broadcast_from-calls os s net.clients (pos 0) false [] in λ i. (result i, calls i)
