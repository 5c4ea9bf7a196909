-- ===== src/Controller/Events/Keeping.antt =====
-- Steps of the event functions (controller/net_functions.c) one behind another, under the invariant
-- of the network.
use mathlib.Core.Path.{sym}
use re203_projet_reseau.Prelude.{
  ℕ, zero, suc, ◌+◌, ◌≡◌, refl, Bool, true, false, List, [], ◌∷◌, Option, none, some, Pointer, set,
  get_elem?, length, Outcome, ok, fault, ◌>>=◌, ℤ, ◌≤ℤ◌, ap, leb, Bool-cases, inl, inr,
  if◌then◌else◌,
}
use re203_projet_reseau.Messages.Types.{Message}
use re203_projet_reseau.Net.Client.{Client, buf_size, client_set_id}
use re203_projet_reseau.Net.Network.Watched.{Below}
use re203_projet_reseau.Net.Update.{World}
use re203_projet_reseau.Net.Update.Invariant.{IsSound, Yields, YieldsBoth, sound, stops}

-- The result of a loop's step, if there is one, is sound.
abbrev pub YieldsStep : {S : Type 0} → Outcome (World S × Bool) → Type 0
YieldsStep (ok (w, goes_on)) = IsSound w
YieldsStep (fault e) = Unit

pub Below-get :
    (m : ℤ) (clients : List Client) (i : ℕ) (c : Client)
    → Below m clients
    → get_elem? clients i ≡ some c
    → c.sock ≤ℤ m
Below-get m [] i c h e = cc
Below-get m (d ∷ clients) zero c h e = let same : d ≡ c = cc e in rw (← same) h.0
Below-get m (d ∷ clients) (suc i) c h e = Below-get m clients i c h.1 e

pub Below-set :
    (m : ℤ) (clients : List Client) (i : ℕ) (c : Client)
    → Below m clients
    → c.sock ≤ℤ m
    → Below m (set clients i c)
Below-set m [] i c h le = tt
Below-set m (d ∷ clients) zero c h le = (le, h.1)
Below-set m (d ∷ clients) (suc i) c h le = (h.0, Below-set m clients i c h.1 le)

pub client_set_id-sock : (c d : Client) (id : Pointer) → client_set_id c id ≡ ok d → d.sock ≡ c.sock
unfolding client_set_id
client_set_id-sock c d none e = cc e
client_set_id-sock c d (some id) e = elim (Bool-cases (leb (length id + 1) buf_size)) [
  | inl fits ↦
      let same : record c { id = id } ≡ d = cc (rw (client_set_id, fits) at e) in
      sym (ap (λ x. x.sock) same)
  | inr over ↦ cc (rw (client_set_id, over) at e)
]

-- What a step does after another one that gives a value.
pub after :
    {S A : Type 0} (m : Outcome A) (k : A → Outcome (World S × Bool))
    → ((a : A) → m ≡ ok a → YieldsStep (k a))
    → YieldsStep (m >>= k)
after (ok a) k f = f a refl
after (fault e) k f = tt

pub either :
    {S : Type 0} (b : Bool) (x y : Outcome (World S × Bool))
    → YieldsStep x
    → YieldsStep y
    → YieldsStep (if b then x else y)
either true x y p q = p
either false x y p q = q

pub both :
    {S A : Type 0} (m : Outcome A) (k : A → Outcome (World S × Client))
    → ((a : A) → YieldsBoth (k a))
    → YieldsBoth (m >>= k)
both (ok a) k f = f a
both (fault e) k f = tt

-- The loop over the messages goes on or not.
pub loop :
    {S : Type 0} (m : Outcome (World S × Bool)) (rest : World S → Outcome (World S))
    → YieldsStep m
    → ((w : World S) → IsSound w → Yields (rest w))
    → Yields (m >>= λ r. elim r.1 [ true ↦ rest r.0 | false ↦ ok r.0 ])
loop (ok (w, true)) rest s f = f w s
loop (ok (w, false)) rest s f = sound s
loop (fault e) rest y f = stops

-- What is parsed is a list of messages or none.
pub parsed :
    {S : Type 0} (m : Outcome (Option (List (Option Message)) × Pointer)) (w : World S)
    (rest : List (Option Message) → Outcome (World S))
    → IsSound w
    → ((ms : List (Option Message)) → Yields (rest ms))
    → Yields (m >>= λ r. elim r.0 [ none ↦ ok w | some ms ↦ rest ms ])
parsed (ok (none, p)) w rest s f = sound s
parsed (ok (some ms, p)) w rest s f = f ms
parsed (fault e) w rest s f = stops
