-- ===== src/Messages/Parse/Quoted.antt =====
-- The quoted text that `mess__parse` (common/messages.c) cuts out of `message` by position.
use mathlib.Core.List.{append_assoc}
use re203_projet_reseau.Prelude.{
  fault, ℕ, Bool, ◌≡◌, ◌+◌, ◌-◌, ◌<◌, ◌≤◌, refl, some, true, Str, [], ◌∷◌, ◌++◌, codes, arith,
  length, ok, ◌∙◌, take, drop, starts_with, length-append, drop-length-append, length-drop,
  drop-append, take-length-append, ap,
}
use re203_projet_reseau.Libc.Tokens.{IsWord, strstr}
use re203_projet_reseau.Messages.Types.{MessageType, init_message}
use re203_projet_reseau.Messages.Reader.Steps.{next-word, copy-word, lift-ok, run-ok}
use re203_projet_reseau.Messages.Regexes.{regex_strtable, first_match}
use re203_projet_reseau.Messages.Parse.{cases, parse_case, parse_text, parse}
use re203_projet_reseau.Messages.Cases.{parse_message, quoted_text, quote_for}

-- The text `message id "d"` up to its last byte, a quotation mark.
abbrev pub opened : Str → Str → Str
opened id d = codes "message" ++ b' ' ∷ (id ++ b' ' ∷ b'"' ∷ d)

abbrev pub quoted : Str → Str → Str
quoted id d = codes "message" ++ b' ' ∷ (id ++ b' ' ∷ b'"' ∷ (d ++ b'"' ∷ []))

quoted-opened : (id d : Str) → quoted id d ≡ opened id d ++ b'"' ∷ []
quoted-opened id d = simp append_assoc

length-opened : (id d : Str) → length (opened id d) ≡ 10 + length id + length d
length-opened id d = omega (arith, length-append id (b' ' ∷ b'"' ∷ d))

quoted_text-some :
    (src id : Str) (i : ℕ)
    → strstr src id ≡ some i
    → i + length id + 2 < length src
    → quoted_text src id
      ≡ ok (take (length src - (i + length id + 2) - 1) (drop (i + length id + 2) src))
unfolding quoted_text
quoted_text-some src id i e h = rw (e, quoted_text) (ground arith)

-- What is cut out of a text with one byte more at its end.
cut-last :
    (s : Str) (c k : ℕ)
    → k ≤ length s
    → take (length (s ++ c ∷ []) - k - 1) (drop k (s ++ c ∷ [])) ≡ drop k s
cut-last s c k h =
    let size : length (s ++ c ∷ []) - k - 1 ≡ length (drop k s) =
      omega (arith, length-append s (c ∷ []), length-drop k s) in
    rw (size, drop-append k s (c ∷ []) h) (take-length-append (drop k s) (c ∷ []))

quoted_text-at :
    (id d : Str) (i : ℕ)
    → i ≤ 8
    → strstr (quoted id d) id ≡ some i
    → quoted_text (quoted id d) id ≡ ok (drop (i + length id + 2) (opened id d))
quoted_text-at id d i le e =
    let q = quoted-opened id d in
    let n = length-opened id d in
    let m = length-append (opened id d) (b'"' ∷ []) in
    rw q (
      quoted_text-some (opened id d ++ b'"' ∷ []) id i (rw q at e) (omega (arith, n, m))
      ∙ ap ok (cut-last (opened id d) b'"' (i + length id + 2) (omega (arith, n))))

parse_message-at :
    (id d : Str) (i : ℕ)
    → IsWord id
    → i ≤ 8
    → strstr (quoted id d) id ≡ some i
    → parse_message (quoted id d)
      ≡ ok (record init_message {
        type = MessageType.message;
        node1 = some id;
        s_parameter = some (drop (i + length id + 2) (opened id d));
      })
unfolding parse_message quote_for
parse_message-at id d i h le e = run-ok _ _ (
    next-word _ (codes "message") _ (omega arith)
    ∙ copy-word _ id _ h
    ∙ lift-ok _ _ _ (quoted_text-at id d i le e))

drop-opened : (id d : Str) → drop (8 + length id + 2) (opened id d) ≡ d
drop-opened id d =
    let p : Str = codes "message " ++ (id ++ b' ' ∷ b'"' ∷ []) in
    let whole : p ++ d ≡ opened id d = simp append_assoc in
    let size : length p ≡ 8 + length id + 2 = omega (arith, length-append id (b' ' ∷ b'"' ∷ [])) in
    rw (← whole, ← size) (drop-length-append p d)

-- The case of `message id "d"` gives the node `id` and the text `d`, if the node's name is a
-- word and does not stand in the text before its own place, the ninth byte.
parse_message-quoted :
    (id d : Str)
    → IsWord id
    → strstr (quoted id d) id ≡ some 8
    → parse_message (quoted id d)
      ≡ ok (record init_message {
        type = MessageType.message;
        node1 = some id;
        s_parameter = some d;
      })
parse_message-quoted id d h e =
    parse_message-at id d 8 h (omega arith) e
    ∙ ap
        (λ t. ok (record init_message {
          type = MessageType.message;
          node1 = some id;
          s_parameter = some t;
        }))
        (drop-opened id d)

-- mess__parse makes of the text message id "d" the node id and the text d, if the pattern of
-- messages is the first that the matcher matches the text to, and the node's name is a word and
-- does not stand in the text before its own place, the ninth byte.
pub parse-quoted :
    (trex_match : Str → Str → Bool) (id d : Str)
    → IsWord id
    → strstr (quoted id d) id ≡ some 8
    → first_match trex_match 0 regex_strtable (quoted id d) ≡ some 7
    → parse trex_match (some (quoted id d))
      ≡ ok (
          some (record init_message {
            type = MessageType.message;
            node1 = some id;
            s_parameter = some d;
          }))
unfolding parse parse_text parse_case cases
parse-quoted trex_match id d h e found =
    ap (λ o. elim o [ ok m ↦ ok (some m) | fault x ↦ fault x ])
      (ap (λ i. parse_case i (quoted id d)) found ∙ parse_message-quoted id d h e)

strstr-prefix : (s needle : Str) → starts_with needle s ≡ true → strstr s needle ≡ some 0
unfolding strstr
strstr-prefix [] needle h = rw h
strstr-prefix (c ∷ s) needle h = rw h

starts_with-append : (p s t : Str) → starts_with p s ≡ true → starts_with p (s ++ t) ≡ true
starts_with-append [] s t h = refl
starts_with-append (c ∷ p) [] t h = cc
starts_with-append (c ∷ p) (d ∷ s) t h = ground (arith, starts_with-append p s t)

-- Where the node's name begins the word `message`, as `m` does, the text is taken from the wrong
-- place: the bytes from the name's length plus two on, eight bytes too many and never `d`.
pub parse_message-prefix :
    (id d : Str)
    → IsWord id
    → starts_with id (codes "message") ≡ true
    → (t : Str) × (parse_message (quoted id d)
        ≡ ok (record init_message {
          type = MessageType.message;
          node1 = some id;
          s_parameter = some t;
        }))
      × (t ≡ drop (length id + 2) (opened id d))
      × (length t ≡ length d + 8)
parse_message-prefix id d h e =
    let t = drop (length id + 2) (opened id d) in
    let found =
      starts_with-append id (codes "message") (b' ' ∷ (id ++ b' ' ∷ b'"' ∷ (d ++ b'"' ∷ []))) e in
    let size : 0 + length id + 2 ≡ length id + 2 = omega arith in
    (
      t,
      parse_message-at id d 0 h (omega arith) (strstr-prefix (quoted id d) id found)
          ∙ ap
              (λ n. ok (record init_message {
                type = MessageType.message;
                node1 = some id;
                s_parameter = some (drop n (opened id d));
              }))
              size,
      refl,
      omega (arith, length-drop (length id + 2) (opened id d), length-opened id d),
    )
