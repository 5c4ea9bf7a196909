-- ===== src/Router/Neighborhood/Items.antt =====
-- The items of the list of neighbours that the controller prints (controller/exec.c), as texts.
use mathlib.Core.List.{append_assoc}
use re203_projet_reseau.Libc.Decimal.{is_digit}
use re203_projet_reseau.Prelude.{
  ℕ, ◌≡◌, ◌≢◌, refl, sym, ap, ◌∙◌, false, List, [], ◌∷◌, ◌++◌, map, some, Str, codes, arith, ℤ,
}
use re203_projet_reseau.Libc.Decimal.{IsInt, show_int}
use re203_projet_reseau.Libc.Decimal.RoundTrip.{show_int-IsField}
use re203_projet_reseau.Libc.Tokens.{strtok}
use re203_projet_reseau.Libc.Tokens.Separated.{
  Without, IsField, strtok-field, Without-append, IsField-append, IsField-Without,
}
use re203_projet_reseau.Controller.Sock.Poll.{item, more_items, listing}
use re203_projet_reseau.Router.Vector.Text.{tails, joined, AreFields, IsName}

-- One item of the list.
pub record Listed : Type 0 where
  pub name : Str
  pub weight : ℤ
  pub address : Str
  pub port : ℤ

abbrev pub text_of : Listed → Str
text_of l = item l.name l.weight l.address l.port

-- The parts of an item that the separators of the list do not cut.
abbrev pub AreReadable : List Listed → Type 0
AreReadable [] = Unit
AreReadable (l ∷ ls) = (IsName l.name × IsInt l.weight × Without b';' l.address) × AreReadable ls

more_items-tails : (xs : List Str) → more_items xs ≡ tails xs ++ codes "]"
more_items-tails [] = refl
more_items-tails (x ∷ xs) =
    ap (λ (s : Str). b';' ∷ s)
      (ap (λ s. x ++ s) (more_items-tails xs) ∙ sym (append_assoc x (tails xs) (codes "]")))

pub listing-joined :
    (x : Str) (xs : List Str) → listing (x ∷ xs) ≡ codes "[" ++ (joined (x ∷ xs) ++ codes "]")
listing-joined x xs =
    ap (λ (s : Str). b'[' ∷ s)
      (ap (λ s. x ++ s) (more_items-tails xs) ∙ sym (append_assoc x (tails xs) (codes "]")))

show_int-Without : (d : ℕ) (z : ℤ) → is_digit d ≡ false → d ≢ b'-' → Without d (show_int z)
show_int-Without d z e m = IsField-Without d (show_int z) (show_int-IsField d z e m)

pub item-IsField : (l : Listed) → IsName l.name → Without b';' l.address → IsField b';' (text_of l)
item-IsField l h a =
    let weight : Without b';' (show_int l.weight ++ codes ",") =
      Without-append b';' (show_int l.weight) (codes ",")
        (show_int-Without b';' l.weight refl (ground arith)) (ground arith, tt) in
    let place : Without b';' (l.address ++ (codes ":" ++ show_int l.port)) =
      Without-append b';' l.address (codes ":" ++ show_int l.port) a
        (ground arith, show_int-Without b';' l.port refl (ground arith)) in
    IsField-append b';' l.name _ h.1
      (ground arith, Without-append b';' (show_int l.weight ++ codes ",") _ weight place)

pub items-AreFields : (ls : List Listed) → AreReadable ls → AreFields (map text_of ls)
items-AreFields [] h = tt
items-AreFields (l ∷ ls) h = (item-IsField l h.0.0 h.0.2, items-AreFields ls h.1)

-- The name, the weight and the rest of an item.
pub strtok-item :
    (l : Listed)
    → IsName l.name
    → strtok (codes ",") (text_of l)
      ≡ (some l.name, show_int l.weight ++ b',' ∷ (l.address ++ (codes ":" ++ show_int l.port)))
strtok-item l h =
    strtok-field b',' l.name _ h.0
    ∙ ap (λ rest. (some l.name, rest))
        (append_assoc (show_int l.weight) (codes ",") (l.address ++ (codes ":" ++ show_int l.port)))
