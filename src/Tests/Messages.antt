-- ===== src/Tests/Messages.antt =====
-- The messages: common/messages.c.
use re203_projet_reseau.Prelude.{
  ◌↔◌, ◌<◌, ◌>>=◌, take, Pointer, ◌≡◌, refl, [], ◌∷◌, ◌++◌, some, Str, codes, arith, ℤ, pos, ok,
  fault, null_pointer, out_of_bounds, length,
}
use re203_projet_reseau.Messages.Types.{MessageType, init_message}
use re203_projet_reseau.Messages.Escape.{
  escape_bytes, treat_input_bytes, strip_star, escape_from, unescape_bytes, treat_input,
  treat_output, treat_output_bytes,
}
use re203_projet_reseau.Messages.Escape.RoundTrip.{
  treat_input-treat_output, treat_input-treat_output_backslash, treat_input_fault,
}
use re203_projet_reseau.Messages.Cases.{parse_plain, parse_message}
use re203_projet_reseau.Messages.Parse.{parse, parse_text, cases, parse_case}
use re203_projet_reseau.Messages.Parse.MissingNumber.{Unfinished, parse-missing_number}
use re203_projet_reseau.Messages.Parse.Quoted.{parse-quoted, parse_message-prefix}
use re203_projet_reseau.Messages.Print.{to_string}
use re203_projet_reseau.Messages.Wire.{Command, wire, message_of}
use re203_projet_reseau.Messages.Wire.Printed.{to_string-wire, to_string-packet}
use re203_projet_reseau.Messages.Wire.RoundTrip.{parse-wire, parse-to_string}
use re203_projet_reseau.Messages.Multiline.{
  multiline_parse, parse_line, multiline_text, read_from, add_line, add_rest, clear_previous,
  max_messages,
}
use re203_projet_reseau.Messages.Multiline.Split.{
  messages_of, multiline_parse-lines, multiline_parse-count,
}
use re203_projet_reseau.Messages.Regexes.{first_match, IsPrefixSound}
use re203_projet_reseau.Messages.Multiline.Lines.{lines_from}
use re203_projet_reseau.Messages.Multiline.Loop.{parse_lines}
use re203_projet_reseau.Libc.Decimal.{show_int, digits}
use re203_projet_reseau.Libc.Tokens.{strstr}
use re203_projet_reseau.Messages.Print.{Buffer, printed}
use re203_projet_reseau.Messages.Regexes.{first_match}
use re203_projet_reseau.Tests.{prefix_matcher}

star_and_backslash : treat_output_bytes (codes "a*b\\c") ≡ codes "a\\*b\\\\c*"
unfolding treat_output_bytes escape_bytes escape_from
star_and_backslash = refl

last_backslash : treat_output_bytes (codes "a\\") ≡ codes "a\\*"
unfolding treat_output_bytes escape_bytes escape_from
last_backslash = refl

treat_input-treat_output_example :
    treat_input (treat_output (some (codes "a*b"))) ≡ ok (some (codes "a*b"))
treat_input-treat_output_example = treat_input-treat_output (codes "a*b") (ground arith)

treat_input-treat_output_backslash_example :
    treat_input (treat_output (some (codes "a" ++ b'\\' ∷ []))) ≡ ok (some (codes "a"))
treat_input-treat_output_backslash_example = treat_input-treat_output_backslash (codes "a")

abbrev nothing : Pointer
nothing = some []

treat_input_fault_example :
    (treat_input (some []) ≡ fault out_of_bounds)
    ↔ ((nothing ≡ some []) × (out_of_bounds ≡ out_of_bounds))
treat_input_fault_example = treat_input_fault (some []) out_of_bounds

-- The first bytes of a pattern are all that `prefix_matcher` looks at.
pub prefix_matcher-IsPrefixSound : IsPrefixSound prefix_matcher
prefix_matcher-IsPrefixSound i s h = h

abbrev hello : Command
hello = Command.packet (pos 7) (codes "R1") (codes "R2") (pos 4) (codes "hi there")

parse-wire_example : parse prefix_matcher (some (wire hello)) ≡ ok (some (message_of hello))
parse-wire_example =
    parse-wire prefix_matcher prefix_matcher-IsPrefixSound hello (omega arith) (refl, tt)

parse-to_string_example :
    (do
      p ← printed (some (message_of hello))
      q ← treat_input (treat_output p)
      parse prefix_matcher q)
    ≡ ok (some (message_of hello))
unfolding show_int digits
parse-to_string_example =
    parse-to_string prefix_matcher prefix_matcher-IsPrefixSound hello (omega arith) (refl, tt)
      (omega arith) (ground arith)

to_string-wire_example :
    to_string (some (message_of (Command.greeting (codes "R1"))))
    ≡ ok (Buffer.text (codes "greeting R1"))
to_string-wire_example = to_string-wire (Command.greeting (codes "R1"))

abbrev far : ℤ
far = pos 1000000

to_string-packet_example :
    to_string (some (message_of (Command.packet far (codes "R1") (codes "R2") far (codes "hi"))))
    ≡ fault out_of_bounds
unfolding show_int digits
to_string-packet_example = to_string-packet far (codes "R1") (codes "R2") far (codes "hi")

parse-missing_number_example :
    parse prefix_matcher (some (codes "log in port ")) ≡ fault null_pointer
parse-missing_number_example =
    parse-missing_number prefix_matcher prefix_matcher-IsPrefixSound Unfinished.login tt refl

parse-quoted_example :
    parse prefix_matcher (some (codes "message R1 \"hello\""))
    ≡ ok (
        some (record init_message {
          type = MessageType.message;
          node1 = some (codes "R1");
          s_parameter = some (codes "hello");
        }))
unfolding first_match
parse-quoted_example =
    parse-quoted prefix_matcher (codes "R1") (codes "hello") (omega arith) (unfold strstr in refl)
      refl

parse_message-prefix_example :
    (t : Str) × (parse_message (codes "message m \"hello\"")
      ≡ ok (record init_message {
        type = MessageType.message;
        node1 = some (codes "m");
        s_parameter = some t;
      }))
    × (t ≡ codes "sage m \"hello")
    × (length t ≡ 13)
parse_message-prefix_example = parse_message-prefix (codes "m") (codes "hello") (omega arith) refl

multiline_parse-lines_example :
    messages_of prefix_matcher (multiline_parse prefix_matcher (some (codes "poll*\nbye*\n"))) ≡ (
      parse_lines prefix_matcher (take 49 (lines_from [] (codes "poll*\nbye*\n"))) [] >>= λ ms.
      ok (some ms))
multiline_parse-lines_example = multiline_parse-lines prefix_matcher (codes "poll*\nbye*\n")

bye_parsed :
    multiline_parse prefix_matcher (some (codes "bye"))
    ≡ ok (some (some (message_of Command.bye) ∷ []), some (0 ∷ 0 ∷ b'e' ∷ []))
unfolding multiline_parse multiline_text read_from add_line add_rest parse_line clear_previous
    treat_input treat_input_bytes strip_star unescape_bytes parse parse_text parse_case cases
    parse_plain first_match
bye_parsed = refl

multiline_parse-count_example :
    (length (some (message_of Command.bye) ∷ []) ≡ length (take 49 (lines_from [] (codes "bye"))))
    × (length (some (message_of Command.bye) ∷ []) < max_messages)
multiline_parse-count_example = multiline_parse-count prefix_matcher (codes "bye") bye_parsed
