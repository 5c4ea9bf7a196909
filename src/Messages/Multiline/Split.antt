-- ===== src/Messages/Multiline/Split.antt =====
-- `mess__multiline_parse` (common/messages.c) against a split at newlines.
use mathlib.Core.List.{append_assoc, append-nil}
use re203_projet_reseau.Prelude.{
  ℕ, ◌+◌, ◌≡◌, ◌<◌, refl, Bool, List, [], ◌∷◌, ◌++◌, Option, some, Str, Pointer, length, take,
  length-take, bind-eq-ok, sym, length-append, bind_assoc, ap, ◌∙◌, Outcome, ok, fault, ◌>>=◌,
  arith,
}
use re203_projet_reseau.Messages.Types.{Message}
use re203_projet_reseau.Messages.Multiline.{
  max_messages, Reading, parse_line, read_from, add_rest, multiline_text, multiline_parse,
}
use re203_projet_reseau.Messages.Multiline.Lines.{
  last_line, lines_from, lines_from-other, HasNoNewline,
}
use re203_projet_reseau.Messages.Multiline.Loop.{parse_lines, at_end, messages_from-lines}

module _ (trex_match : Str → Str → Bool) where
  abbrev pub messages_of :
      Outcome (Option (List (Option Message)) × Pointer) → Outcome (Option (List (Option Message)))
  messages_of o = o >>= λ t. ok t.0

  pick_messages :
      (o : Outcome Reading)
      → messages_of (o >>= λ r. ok (some r.messages, some r.source))
        ≡ (o >>= (λ r. ok r.messages) >>= λ ms. ok (some ms))
  pick_messages (ok r) = refl
  pick_messages (fault e) = refl

  text_messages :
      (o : Outcome Reading)
      → (o >>= add_rest trex_match >>= λ u. ok u.messages)
        ≡ (o >>= λ t. add_rest trex_match t >>= λ u. ok u.messages)
  text_messages (ok r) = refl
  text_messages (fault e) = refl

  -- `mess__multiline_parse` gives the messages of the first 49 lines of the text, in their order,
  -- each line with its newline at the end treated and parsed on its own. It is a fault exactly if
  -- treating or parsing one of these lines is. No other byte ends a message, `*` neither.
  pub multiline_parse-lines :
      (s : Str)
      → messages_of (multiline_parse trex_match (some s))
        ≡ (parse_lines trex_match (take 49 (lines_from [] s)) [] >>= λ ms. ok (some ms))
  unfolding multiline_parse multiline_text
  multiline_parse-lines s =
      let start = at_end trex_match s [] [] in
      let o = read_from trex_match (length s) 0 start in
      pick_messages (o >>= add_rest trex_match)
      ∙ ap (λ q. q >>= λ ms. ok (some ms))
          (text_messages o ∙ messages_from-lines trex_match s [] s [] 0 [] refl refl)

  lines_from-none : (line s : Str) → HasNoNewline s → lines_from line s ≡ last_line (line ++ s)
  unfolding lines_from
  lines_from-none line [] h = rw (append-nil line)
  lines_from-none line (c ∷ s) h = rw (
    lines_from-other line c s (ground arith),
    lines_from-none (line ++ c ∷ []) s h.1,
    append_assoc line (c ∷ []) s,
  )

  -- A text with no newline is one message, whatever stars it holds: `poll*poll*`, two messages as
  -- `mess__treatOutput` frames them, is read as a single one.
  pub multiline_parse-one :
      (c : ℕ) (s : Str)
      → HasNoNewline (c ∷ s)
      → messages_of (multiline_parse trex_match (some (c ∷ s)))
        ≡ (parse_line trex_match (c ∷ s) >>= λ m. ok (some (m ∷ [])))
  unfolding parse_lines last_line
  multiline_parse-one c s h =
      multiline_parse-lines (c ∷ s)
      ∙ rw (lines_from-none [] (c ∷ s) h)
          (bind_assoc (parse_line trex_match (c ∷ s)) (λ m. ok (m ∷ [])) (λ ms. ok (some ms)))

  length-parse_lines :
      (ls : List Str) (ms : List (Option Message)) {r : List (Option Message)}
      → parse_lines trex_match ls ms ≡ ok r
      → length r ≡ length ms + length ls
  unfolding parse_lines
  length-parse_lines [] ms e = ground arith
  length-parse_lines (l ∷ ls) ms e =
      let (m, _, q) = bind-eq-ok (parse_line trex_match l) _ e in
      omega (arith, length-parse_lines ls (ms ++ m ∷ []) q, length-append ms (m ∷ []))

  -- `mess__multiline_parse` never fills its array of 50 messages: if it returns, it returns as many
  -- messages as there are lines, and 49 at most.
  pub multiline_parse-count :
      (s : Str) {ms : List (Option Message)} {rest : Pointer}
      → multiline_parse trex_match (some s) ≡ ok (some ms, rest)
      → (length ms ≡ length (take 49 (lines_from [] s))) × (length ms < max_messages)
  multiline_parse-count s {ms} {rest} e =
      let e' = ap messages_of (sym e) ∙ multiline_parse-lines s in
      let (r, q, f) =
        bind-eq-ok (parse_lines trex_match (take 49 (lines_from [] s)) []) _ (sym e') in
      let same : r ≡ ms = cc f in
      let n = length-parse_lines (take 49 (lines_from [] s)) [] q in
      rw (← same) (omega (arith, n), omega (arith, n, length-take 49 (lines_from [] s)))
