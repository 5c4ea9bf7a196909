-- ===== src/Controller/Sock/Poll.antt =====
-- The case `POLL` of `exec__sock_message` (controller/exec.c): the list of neighbours.
use mathlib.Core.Path.{sym}
use mathlib.Core.List.{append-nil, append_assoc}
use re203_projet_reseau.Prelude.{
  take-length-append, ℕ, ◌+◌, ◌-◌, ◌≡◌, ◌<◌, refl, true, false, List, [], ◌∷◌, ◌++◌, some, Str,
  codes, length, length-append, get_or, ok, ap, ◌∙◌, arith, ℤ,
}
use re203_projet_reseau.Libc.Decimal.{show_int}
use re203_projet_reseau.Messages.Print.{write_buffer}
use re203_projet_reseau.Controller.Graph.{Edge, Library, neighbour, graph_get_weight}
use re203_projet_reseau.Controller.Table.{HashTable, table_get_info}
use re203_projet_reseau.Controller.Sock.{
  Controller, strcat, close_list, add_neighbour, add_neighbours, neighbourhood,
}

-- What a router is told of a neighbour: its name, the weight of the link, and where it listens.
abbrev pub item : Str → ℤ → Str → ℤ → Str
item n weight address port =
    n
    ++ (codes "," ++ ((show_int weight ++ codes ",") ++ (address ++ (codes ":" ++ show_int port))))

-- `;` and the items that it stands in front of.
abbrev pub more_items : List Str → Str
more_items [] = codes "]"
more_items (x ∷ items) = b';' ∷ (x ++ more_items items)

-- `[a;b;c]`
abbrev pub listing : List Str → Str
listing [] = codes "[]"
listing (x ∷ items) = b'[' ∷ (x ++ more_items items)

-- The loop's text: every item with a `;` behind it.
abbrev ended : List Str → Str
ended [] = []
ended (x ∷ items) = (x ++ codes ";") ++ ended items

strcat-fits : (v s : Str) → length v + length s < 1000 → strcat v s ≡ ok (v ++ s)
unfolding strcat write_buffer
strcat-fits v s h = ground (arith, length-append v s)

-- The last `;` becomes the closing bracket.
ended-close :
    (x : Str) (items : List Str)
    → (t : Str) × (ended (x ∷ items) ≡ t ++ codes ";") × (x ++ more_items items ≡ t ++ codes "]")
ended-close x [] = (x, append-nil _, refl)
ended-close x (y ∷ items) =
    let (t, e, f) = ended-close y items in
    (
      (x ++ codes ";") ++ t,
      ap (λ u. (x ++ codes ";") ++ u) e ∙ sym (append_assoc (x ++ codes ";") t (codes ";")),
      ap (λ u. x ++ b';' ∷ u) f ∙ simp append_assoc,
    )

get_or-snoc : (t : Str) (c d : ℕ) → get_or (t ++ c ∷ []) (length t) d ≡ c
get_or-snoc [] c d = refl
get_or-snoc (x ∷ t) c d = get_or-snoc t c d

close_list-semicolon : (t : Str) → close_list (t ++ codes ";") ≡ ok (t ++ codes "]")
unfolding close_list
close_list-semicolon t =
    let size : length (t ++ codes ";") - 1 ≡ length t =
      omega (arith, length-append t (codes ";")) in
    rw (close_list, size, get_or-snoc t b';' 0, take-length-append t (codes ";")) refl

write_buffer-small : (s : Str) → length s < 100 → write_buffer 100 s ≡ ok s
unfolding write_buffer
write_buffer-small s h = ground arith

length-item :
    (x : Str) (weight : ℤ) (address : Str) (port : ℤ)
    → length (item x weight address port)
      ≡ length x
        + (1
            + (length (show_int weight ++ codes ",")
                + (length address + (1 + length (show_int port)))))
length-item x weight address port = simp (length-append {0}) (omega arith)

module _ {T H : Type 0} (lib : Library T) (hash : HashTable H) where
  -- The items for the edges of a node, in their order: one for each neighbour that is connected,
  -- with the weight of the link and the address and port of the neighbour's entry in the table.
  pub data Shown (w : Controller T H) (n : Str) : List Edge → List Str → Type 0 where
    no_more : Shown w n [] []
    skip :
        {e : Edge} {edges : List Edge} {items : List Str}
        → w.marks.is_connected (neighbour n e) ≡ false
        → Shown w n edges items
        → Shown w n (e ∷ edges) items
    show :
        {e : Edge} {edges : List Edge} {items : List Str} (weight : ℤ) (address : Str) (port : ℤ)
        → w.marks.is_connected (neighbour n e) ≡ true
        → graph_get_weight lib e ≡ ok weight
        → table_get_info hash w.table (neighbour n e)
          ≡ some (record { address = some address; port = port })
        → length address < 100
        → Shown w n edges items
        → Shown w n (e ∷ edges) (item (neighbour n e) weight address port ∷ items)

  add_neighbour-skip :
      (w : Controller T H) (n : Str) (e : Edge) (v : Str)
      → w.marks.is_connected (neighbour n e) ≡ false
      → add_neighbour lib hash w n e v ≡ ok v
  unfolding add_neighbour
  add_neighbour-skip w n e v h = rw h refl

  add_neighbour-show :
      (w : Controller T H) (n : Str) (e : Edge) (v : Str) (weight : ℤ) (address : Str) (port : ℤ)
      → w.marks.is_connected (neighbour n e) ≡ true
      → graph_get_weight lib e ≡ ok weight
      → table_get_info hash w.table (neighbour n e)
        ≡ some (record { address = some address; port = port })
      → length address < 100
      → length v + length (item (neighbour n e) weight address port) + 1 < 1000
      → add_neighbour lib hash w n e v
        ≡ ok (v ++ (item (neighbour n e) weight address port ++ codes ";"))
  unfolding add_neighbour
  add_neighbour-show w n e v weight address port h k l small fits =
      let x : Str = neighbour n e in
      let y : Str = show_int weight ++ codes "," in
      let z : Str = show_int port in
      let v1 : Str = v ++ x in
      let v2 : Str = v1 ++ codes "," in
      let v3 : Str = v2 ++ y in
      let v4 : Str = v3 ++ address in
      let v5 : Str = v4 ++ codes ":" in
      let v6 : Str = v5 ++ z in
      let n1 = length-append v x in
      let n2 = length-append v1 (codes ",") in
      let n3 = length-append v2 y in
      let n4 = length-append v3 address in
      let n5 = length-append v4 (codes ":") in
      let n6 = length-append v5 z in
      let size : length (item x weight address port)
          ≡ length x + (1 + (length y + (length address + (1 + length z)))) =
        length-item x weight address port in
      rw
        (
          h,
          strcat-fits v x (omega (arith, size)),
          strcat-fits v1 (codes ",") (omega (arith, size, n1)),
          k,
          strcat-fits v2 y (omega (arith, size, n1, n2)),
          l,
          write_buffer-small address small,
          strcat-fits v3 address (omega (arith, size, n1, n2, n3)),
          strcat-fits v4 (codes ":") (omega (arith, size, n1, n2, n3, n4)),
          strcat-fits v5 z (omega (arith, size, n1, n2, n3, n4, n5)),
          strcat-fits v6 (codes ";") (omega (arith, size, n1, n2, n3, n4, n5, n6)),
        )
        (ap ok (simp append_assoc))

  add_neighbours-Shown :
      (w : Controller T H) (n : Str) (edges : List Edge) (items : List Str) (v : Str)
      → Shown w n edges items
      → length v + length (ended items) < 1000
      → add_neighbours lib hash w n edges v ≡ ok (v ++ ended items)
  unfolding add_neighbours
  add_neighbours-Shown w n [] [] v no_more fits = ap ok (sym (append-nil v))
  add_neighbours-Shown w n [] (x ∷ items) v s fits = elim s [ ]
  add_neighbours-Shown w n (e ∷ edges) items v (skip h s) fits =
      rw (add_neighbour-skip w n e v h) (add_neighbours-Shown w n edges items v s fits)
  add_neighbours-Shown w n (e ∷ edges) (x ∷ items) v (show weight address port h k l small s) fits =
      let y = item (neighbour n e) weight address port in
      let size = length-append y (codes ";") in
      let whole = length-append (y ++ codes ";") (ended items) in
      let longer = length-append v (y ++ codes ";") in
      rw (add_neighbour-show w n e v weight address port h k l small (omega (arith, size, whole))) (
        add_neighbours-Shown w n edges items (v ++ (y ++ codes ";")) s
          (omega (arith, size, whole, longer))
        ∙ ap ok (append_assoc v (y ++ codes ";") (ended items)))

  neighbourhood-one :
      (g : T) (w : Controller T H) (n x : Str) (items : List Str)
      → Shown w n (lib.edges g n) (x ∷ items)
      → length (listing (x ∷ items)) < 1000
      → neighbourhood lib hash g w n ≡ ok (listing (x ∷ items))
  unfolding neighbourhood
  neighbourhood-one g w n x items s fits =
      let (t, e, f) = ended-close x items in
      let short = ap length e ∙ length-append t (codes ";") in
      let long = ap length f ∙ length-append t (codes "]") in
      let shut : close_list (b'[' ∷ ended (x ∷ items)) ≡ ok (b'[' ∷ (x ++ more_items items)) =
        ap (λ u. close_list (b'[' ∷ u)) e
        ∙ close_list-semicolon (b'[' ∷ t)
        ∙ ap (λ u. ok (b'[' ∷ u)) (sym f) in
      rw
        (add_neighbours-Shown w n (lib.edges g n) (x ∷ items) (codes "[") s
          (omega (arith, short, long)))
        shut

  pub neighbourhood-listing :
      (g : T) (w : Controller T H) (n : Str) (items : List Str)
      → Shown w n (lib.edges g n) items
      → length (listing items) < 1000
      → neighbourhood lib hash g w n ≡ ok (listing items)
  unfolding neighbourhood close_list strcat write_buffer
  neighbourhood-listing g w n [] s fits =
      rw (add_neighbours-Shown w n (lib.edges g n) [] (codes "[") s (omega arith)) refl
  neighbourhood-listing g w n (x ∷ items) s fits = neighbourhood-one g w n x items s fits
