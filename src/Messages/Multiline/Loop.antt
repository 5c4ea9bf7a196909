-- ===== src/Messages/Multiline/Loop.antt =====
-- The loop of `mess__multiline_parse` (common/messages.c) and a split into lines.
use native.Mathlib.Decide.{dec_lt}
use re203_projet_reseau.Prelude.{
  ℕ, zero, suc, ◌+◌, ◌-◌, ◌≡◌, ◌≤◌, ◌<◌, refl, Bool, true, false, List, [], ◌∷◌, ◌++◌, Option, none,
  Str, length, get_or, take, Bool-cases, inl, inr, length-append, bind_congr, ap, ◌∙◌, ◌==◌,
  Outcome, ok, fault, ◌>>=◌, arith,
}
use re203_projet_reseau.Messages.Types.{Message}
use re203_projet_reseau.Messages.Multiline.{
  Reading, clear_previous, parse_line, add_line, read_from, add_rest,
}
use re203_projet_reseau.Messages.Multiline.Lines.{
  last_line, lines_from, lines_from-newline, lines_from-other, read_more, get_or-middle,
  clear_previous-append,
}

module _ (trex_match : Str → Str → Bool) where
  -- Each line parsed, in order, behind the messages so far.
  unfoldable pub parse_lines : List Str → List (Option Message) → Outcome (List (Option Message))
  parse_lines [] ms = ok ms
  parse_lines (l ∷ ls) ms = do m ← parse_line trex_match l; parse_lines ls (ms ++ m ∷ [])

  -- At most 49 messages are kept.
  abbrev pub room : List (Option Message) → ℕ
  room ms = 49 - length ms

  abbrev pub messages_from : ℕ → ℕ → Reading → Outcome (List (Option Message))
  messages_from k i r = do t ← read_from trex_match k i r; u ← add_rest trex_match t; ok u.messages

  module _ (source line : Str) (ms : List (Option Message)) where
    abbrev pub at_end : Reading
    at_end = record { source = source; line = line; messages = ms }

    add_line-full :
        49 ≤ length ms → add_line trex_match at_end ≡ ok (record at_end { line = [] }, true)
    unfolding add_line
    add_line-full h = ground arith

    add_line-room :
        length ms < 49
        → add_line trex_match at_end ≡ (
            parse_line trex_match line >>= λ m.
            ok (record at_end { line = []; messages = ms ++ m ∷ [] }, false))
    unfolding add_line
    add_line-room h = ground arith

    room-full : 49 ≤ length ms → room ms ≡ 0
    room-full h = omega arith

    room-suc : (m : Option Message) → length ms < 49 → room ms ≡ suc (room (ms ++ m ∷ []))
    room-suc m h = omega (arith, length-append ms (m ∷ []))

    parse_lines-room :
        (ls : List Str)
        → length ms < 49
        → parse_lines (take (room ms) (line ∷ ls)) ms ≡ (
            parse_line trex_match line >>= λ m.
            parse_lines (take (room (ms ++ m ∷ [])) ls) (ms ++ m ∷ []))
    unfolding parse_lines
    parse_lines-room ls h = rw (room-suc none h) (
        bind_congr (parse_line trex_match line) _ _ (λ m.
          ap (λ n. parse_lines (take n ls) (ms ++ m ∷ []))
            (omega (arith, room-suc m h, room-suc none h))))

  take-nil : (n : ℕ) → take {A = Str} n [] ≡ []
  take-nil zero = refl
  take-nil (suc n) = refl

  add_rest-none :
      (source : Str) (ms : List (Option Message))
      → add_rest trex_match (at_end source [] ms) ≡ ok (at_end source [] ms)
  unfolding add_rest
  add_rest-none source ms = refl

  add_rest-line :
      (source line : Str) (d : ℕ) (ms : List (Option Message))
      → add_rest trex_match (at_end source (d ∷ line) ms)
        ≡ (add_line trex_match (at_end source (d ∷ line) ms) >>= λ t. ok t.0)
  unfolding add_rest
  add_rest-line source line d ms = ground arith

  -- What `add_line` returns behind the message `m`.
  abbrev flagged : (Option Message → Reading) → Option Message → Outcome (Reading × Bool)
  flagged r m = ok (r m, false)

  last_bind :
      {C : Type 0} (o : Outcome (Option Message)) (r : Option Message → Reading)
      (rest : Reading → Outcome C) (g : Option Message → Outcome C)
      → ((m : Option Message) → rest (r m) ≡ g m)
      → (o >>= flagged r >>= (λ t. ok t.0) >>= rest) ≡ (o >>= g)
  last_bind (ok m) r rest g h = h m
  last_bind (fault e) r rest g h = refl

  loop_bind :
      {C : Type 0} (o : Outcome (Option Message)) (r : Option Message → Reading)
      (k : Reading → Outcome Reading) (rest : Reading → Outcome C) (g : Option Message → Outcome C)
      → ((m : Option Message) → (k (r m) >>= rest) ≡ g m)
      → (o >>= flagged r >>= (λ t. elim t.1 [ true ↦ ok t.0 | false ↦ k t.0 ]) >>= rest) ≡ (o >>= g)
  loop_bind (ok m) r k rest g h = h m
  loop_bind (fault e) r k rest g h = refl

  add_rest-last :
      (source line : Str) (ms : List (Option Message))
      → (add_rest trex_match (at_end source line ms) >>= λ u. ok u.messages)
        ≡ parse_lines (take (room ms) (last_line line)) ms
  unfolding last_line parse_lines
  add_rest-last source [] ms = rw (add_rest-none source ms, take-nil (room ms))
  add_rest-last source (d ∷ line) ms = elim (dec_lt (length ms) 49) [
    | yes lt ↦
        rw
          (
            parse_lines-room source (d ∷ line) ms [] lt,
            add_rest-line source line d ms,
            add_line-room source (d ∷ line) ms lt,
          )
          (last_bind (parse_line trex_match (d ∷ line)) (λ m. at_end source [] (ms ++ m ∷ []))
            (λ u. ok u.messages) _ (λ m. rw (take-nil (room (ms ++ m ∷ [])))))
    | no ge ↦ rw (
      room-full source (d ∷ line) ms (omega arith),
      add_rest-line source line d ms,
      add_line-full source (d ∷ line) ms (omega arith),
    )
  ]

  read_from-newline :
      (k i : ℕ) (r : Reading)
      → get_or r.source i 0 == 10 ≡ true
      → read_from trex_match (suc k) i r ≡ (
          add_line trex_match (record r { line = r.line ++ get_or r.source i 0 ∷ [] }) >>= λ t.
          elim t.1 [ true ↦ ok t.0 | false ↦ read_from trex_match k (i + 1) t.0 ])
  unfolding read_from
  read_from-newline k i r e = rw e

  read_from-other :
      (k i : ℕ) (r : Reading)
      → get_or r.source i 0 == 10 ≡ false
      → read_from trex_match (suc k) i r
        ≡ read_from trex_match k (i + 1) (record r {
          source = clear_previous i r.source;
          line = r.line ++ get_or r.source i 0 ∷ [];
        })
  unfolding read_from
  read_from-other k i r e = rw e

  pub messages_from-lines :
      (s p source line : Str) (i : ℕ) (ms : List (Option Message))
      → source ≡ p ++ s
      → length p ≡ i
      → messages_from (length s) i (at_end source line ms)
        ≡ parse_lines (take (room ms) (lines_from line s)) ms
  messages_from-lines [] p source line i ms e h =
      unfold read_from lines_from in add_rest-last source line ms
  messages_from-lines (c ∷ s) p source line i ms e h =
      let here : get_or source i 0 ≡ c = rw (e, ← h) (get_or-middle p c s) in
      let newline_at = λ (v : Bool) (q : c == 10 ≡ v). ap (λ x. x == 10) here ∙ q in
      elim (Bool-cases (c == 10)) [
        | inl nl ↦
            rw
              (
                read_from-newline (length s) i (at_end source line ms) (newline_at true nl),
                here,
                lines_from-newline line c s nl,
              )
              (elim (dec_lt (length ms) 49) [
                | yes lt ↦
                    let more = read_more p s source c i e h in
                    rw
                      (
                        add_line-room source (line ++ c ∷ []) ms lt,
                        parse_lines-room source (line ++ c ∷ []) ms (lines_from [] s) lt,
                      )
                      (loop_bind (parse_line trex_match (line ++ c ∷ []))
                        (λ m. at_end source [] (ms ++ m ∷ []))
                        (read_from trex_match (length s) (i + 1))
                        (λ t. add_rest trex_match t >>= λ u. ok u.messages) _
                        (λ m.
                          messages_from-lines s (p ++ c ∷ []) source [] (i + 1) (ms ++ m ∷ [])
                            more.0 more.1))
                | no ge ↦
                    rw
                      (
                        add_line-full source (line ++ c ∷ []) ms (omega arith),
                        room-full source line ms (omega arith),
                        add_rest-none source ms,
                      )
                      (unfold parse_lines in refl)
              ])
        | inr other ↦
            rw
              (
                read_from-other (length s) i (at_end source line ms) (newline_at false other),
                here,
                lines_from-other line c s other,
              )
              (let (p', len, cleared) = clear_previous-append i p (c ∷ s) h in
                let more =
                  read_more p' s (clear_previous i source) c i (ap (clear_previous i) e ∙ cleared)
                    len in
                messages_from-lines s (p' ++ c ∷ []) (clear_previous i source) (line ++ c ∷ [])
                  (i + 1) ms more.0 more.1)
      ]
