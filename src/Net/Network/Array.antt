-- ===== src/Net/Network/Array.antt =====
-- `add_client`, `get_client_id` and `remove_client` (common/net.c) as operations on a sequence.
use native.Mathlib.Numerals.{add-one}
use mathlib.Core.List.{append-nil}
use re203_projet_reseau.Prelude.{
  ltb_ℤ, if◌then◌else◌, ℕ, suc, ◌+◌, ◌≡◌, ◌<◌, refl, true, false, List, [], ◌∷◌, ◌++◌, some, none,
  ok, arith, length, take, drop, take-length-append, ◌∙◌, ap, str_eq_refl,
}
use re203_projet_reseau.Net.Client.{Client, same_client}
use re203_projet_reseau.Net.Network.{
  nb_clients_max, remove_at, Network, index_from, get_client_id, add_client, remove_client,
}

-- No entry equals the client.
abbrev pub Differs : Client → List Client → Type 0
Differs c [] = Unit
Differs c (d ∷ clients) = (same_client c d ≡ false) × Differs c clients

pub same_client_refl : (c : Client) → same_client c c ≡ true
unfolding same_client
same_client_refl c = rw (str_eq_refl c.id) (ground arith)

index_from-first :
    (c d : Client) (before after : List Client) (i : ℕ)
    → Differs c before
    → same_client c d ≡ true
    → index_from i c (before ++ d ∷ after) ≡ some (length before + i)
unfolding index_from
index_from-first c d [] after i h e = rw e (ap some (omega arith))
index_from-first c d (x ∷ before) after i h e =
    rw (h.0, index_from-first c d before after (suc i) h.1 e) (ap some (omega arith))

index_from-none :
    (c : Client) (clients : List Client) (i : ℕ) → Differs c clients → index_from i c clients ≡ none
unfolding index_from
index_from-none c [] i h = refl
index_from-none c (d ∷ clients) i h = rw h.0 (index_from-none c clients (suc i) h.1)

gap :
    (before after : List Client) (d : Client)
    → drop (suc (length before)) (before ++ d ∷ after) ≡ after
gap [] after d = refl
gap (x ∷ before) after d = gap before after d

cut_out :
    (clients before after : List Client) (d : Client)
    → clients ≡ before ++ d ∷ after
    → take (length before) clients ++ drop (length before + 1) clients ≡ before ++ after
cut_out clients before after d e =
    rw (e, add-one, gap before after d, take-length-append before (d ∷ after))

module _ (net : Network) (c : Client) where
  -- `remove_client` takes out the first entry that equals the client and keeps the order of the
  -- others; nothing else of the network changes.
  pub remove_client-first :
      (d : Client) (before after : List Client)
      → net.clients ≡ before ++ d ∷ after
      → Differs c before
      → same_client c d ≡ true
      → remove_client net c ≡ record net { clients = before ++ after }
  unfolding remove_client remove_at get_client_id
  remove_client-first d before after e h s =
      let i : index_from 0 c net.clients ≡ some (length before) =
        rw e (index_from-first c d before after 0 h s ∙ ap some (omega arith)) in
      rw i (ap (λ xs. record net { clients = xs }) (cut_out net.clients before after d e))

  -- A client that is not in the array is not removed: the network stays as it is.
  pub remove_client-absent : Differs c net.clients → remove_client net c ≡ net
  unfolding remove_client remove_at get_client_id
  remove_client-absent h = rw (index_from-none c net.clients 0 h)

-- The network that `add_client` returns when the array has room.
abbrev pub grown : Network → Client → Network
grown net c = record net {
  max = if ltb_ℤ net.max c.sock then c.sock else net.max;
  clients = net.clients ++ c ∷ [];
}

pub add_client-eq-ok :
    (net net' : Network) (c : Client)
    → add_client net c ≡ ok net'
    → (length net.clients < nb_clients_max) × (net' ≡ grown net c)
unfolding add_client
add_client-eq-ok net net' c e = ground arith

-- While the array has room, a client that `add_client` appends is taken out by `remove_client`
-- again, and the array is as before, provided no entry equals the client.
pub remove_client-add_client :
    (net : Network) (c : Client)
    → length net.clients < nb_clients_max
    → Differs c net.clients
    → (net' : Network) × (add_client net c ≡ ok net')
      × (net'.clients ≡ net.clients ++ c ∷ [])
      × ((remove_client net' c).clients ≡ net.clients)
unfolding add_client
remove_client-add_client net c room h = (
  grown net c,
  ground arith,
  refl,
  ap (λ n. n.clients)
        (remove_client-first (grown net c) c c net.clients [] refl h (same_client_refl c))
      ∙ append-nil net.clients,
)
