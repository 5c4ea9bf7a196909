-- ===== src/Messages/Wire/Printed.antt =====
-- What `mess__toString` (common/messages.c) prints for the messages of the protocol.
use re203_projet_reseau.Prelude.{
  ◌>>=◌, Option, leb, if◌then◌else◌, true, ap, ◌∙◌, ℕ, ◌+◌, ◌≡◌, ◌≤◌, refl, ok, fault,
  out_of_bounds, some, Str, length, arith, ℤ, length-append,
}
use re203_projet_reseau.Libc.Decimal.{show_int}
use re203_projet_reseau.Messages.Print.{
  capacity, print_addresses, print_login, print_neighborhood, print_link, print_vector,
  print_packet, print_ping, print_pong, print_as, write_buffer, print_text, to_string, Buffer,
  out_buffer, read_buffer, printed,
}
use re203_projet_reseau.Messages.Types.{Message}
use re203_projet_reseau.Messages.Wire.{Command, wire, message_of}

print_as-wire : (c : Command) → print_as (message_of c).type (message_of c) ≡ ok (some (wire c))
unfolding print_as print_login print_neighborhood print_link print_vector print_packet print_ping
    print_pong print_addresses
print_as-wire (Command.login_as id p) = refl
print_as-wire _ = refl

leb-true : (m n : ℕ) → m ≤ n → leb m n ≡ true
leb-true m n h = ground arith

out_buffer-some :
    (size : ℕ) (t : Str)
    → out_buffer size (some t)
      ≡ (if leb (length t + 1) size then ok (Buffer.text t) else fault out_of_bounds)
unfolding out_buffer write_buffer
out_buffer-some size t = ground arith

-- `mess__toString` prints a message of the protocol word for word, with single spaces between, if
-- the text and its terminator fit the buffer; if they do not, it writes outside the buffer.
pub to_string-wire :
    (c : Command)
    → to_string (some (message_of c)) ≡ (
        if leb (length (wire c) + 1) (capacity (message_of c))
        then ok (Buffer.text (wire c))
        else fault out_of_bounds)
unfolding to_string print_text
to_string-wire c =
    ap (λ o. o >>= out_buffer (capacity (message_of c))) (print_as-wire c)
    ∙ out_buffer-some (capacity (message_of c)) (wire c)

pub to_string-fits :
    (c : Command)
    → length (wire c) + 1 ≤ capacity (message_of c)
    → to_string (some (message_of c)) ≡ ok (Buffer.text (wire c))
to_string-fits c h =
    rw (to_string-wire c, leb-true (length (wire c) + 1) (capacity (message_of c)) h) refl

-- A message whose text is printed to a buffer that it fits.
pub to_string-text :
    (m : Message) (text : Str)
    → print_as m.type m ≡ ok (some text)
    → length text + 1 ≤ capacity m
    → to_string (some m) ≡ ok (Buffer.text text)
unfolding to_string print_text
to_string-text m text e h =
    ap (λ o. o >>= out_buffer (capacity m)) e
    ∙ rw (out_buffer-some (capacity m) text, leb-true (length text + 1) (capacity m) h) refl

-- What a caller reads is the text in the buffer.
pub printed-text :
    (m : Option Message) (text : Str)
    → to_string m ≡ ok (Buffer.text text)
    → printed m ≡ ok (some text)
unfolding printed read_buffer
printed-text m text e = ap (λ o. o >>= read_buffer) e

length-packet :
    (q : ℤ) (a b : Str) (t : ℤ) (d : Str)
    → length (wire (Command.packet q a b t d))
      ≡ 35 + length (show_int q) + length a + length b + length (show_int t) + length d
length-packet q a b t d = simp (length-append {0}) (omega arith)

-- A packet with data is printed in its buffer exactly when the sequence number, the two node names
-- and the time to live have at most 14 bytes together, whatever the data is.
pub to_string-packet :
    (q : ℤ) (a b : Str) (t : ℤ) (d : Str)
    → to_string (some (message_of (Command.packet q a b t d))) ≡ (
        if leb (length (show_int q) + length a + length b + length (show_int t)) 14
        then ok (Buffer.text (wire (Command.packet q a b t d)))
        else fault out_of_bounds)
to_string-packet q a b t d =
    let e = length-packet q a b t d in
    let c : Command = Command.packet q a b t d in
    let same : leb (length (wire c) + 1) (capacity (message_of c))
        ≡ leb (length (show_int q) + length a + length b + length (show_int t)) 14 =
      ground (arith, e) in
    to_string-wire c
    ∙ ap (λ fits. if fits then ok (Buffer.text (wire c)) else fault out_of_bounds) same
