-- ===== src/Controller/Sock/Steps.antt =====
-- `exec__sock_message` (controller/exec.c) once a topology is loaded: the case for the message's type.
use re203_projet_reseau.Prelude.{◌≡◌, some, ok, ◌>>=◌, ap, ◌∙◌}
use re203_projet_reseau.Messages.Types.{MessageType, Message}
use re203_projet_reseau.Controller.Graph.{Library}
use re203_projet_reseau.Controller.Table.{HashTable}
use re203_projet_reseau.Controller.Sock.{Controller, execute, execute_on, sock_message}

module _ {T H : Type 0} (lib : Library T) (hash : HashTable H) where
  pub sock_message-execute :
      (w : Controller T H) (g : T) (m : Message) (t : MessageType)
      → w.graph ≡ some g
      → m.type ≡ t
      → sock_message lib hash w (some m) ≡ (execute lib hash g w m t >>= λ r. ok (r.0, some r.1))
  unfolding sock_message execute_on
  sock_message-execute w g m t eg et =
      ap (λ o. execute_on lib hash o w (some m)) eg
      ∙ ap (λ u. execute lib hash g w m u >>= λ r. ok (r.0, some r.1)) et
