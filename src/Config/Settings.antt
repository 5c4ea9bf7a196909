-- ===== src/Config/Settings.antt =====
-- What `config__readLine` (common/config.c) does with a line that sets a number.
use re203_projet_reseau.Prelude.{
  length, take, take-length-append, length-append, ap, ℕ, ◌≡◌, refl, Bool, [], ◌∷◌, ◌++◌, some, Str,
  codes, ℤ, ok, arith, ◌∙◌, ap, length, take, take-length-append, length-append,
}
use re203_projet_reseau.Libc.Decimal.{IsInt, show_int}
use re203_projet_reseau.Libc.Tokens.{IsWord}
use re203_projet_reseau.Messages.Regexes.{first_match}
use re203_projet_reseau.Messages.Reader.Steps.{next-word, int-end, run-ok}
use re203_projet_reseau.Config.{
  Configuration, config_strtable, third_int, read_int, read_cases, read_case, cut_line, read_line,
}

-- The settings that are numbers, their names in the file, and their cases.
pub data Setting : Type 0 where
  router_port controller_port controller_update_interval router_update_interval : Setting
  default_ttl_value default_ping_packet_count default_packet_timeout_value : Setting
  default_dv_timeout_value poll_timeout_value : Setting

abbrev pub name_of_setting : Setting → Str
name_of_setting Setting.router_port = codes "router-port"
name_of_setting Setting.controller_port = codes "controller-port"
name_of_setting Setting.controller_update_interval = codes "controller-update-interval"
name_of_setting Setting.router_update_interval = codes "router-update-interval"
name_of_setting Setting.default_ttl_value = codes "default-ttl-value"
name_of_setting Setting.default_ping_packet_count = codes "default-ping-packet-count"
name_of_setting Setting.default_packet_timeout_value = codes "default-packet-timeout-value"
name_of_setting Setting.default_dv_timeout_value = codes "default-dv-timeout-value"
name_of_setting Setting.poll_timeout_value = codes "poll-timeout-value"

abbrev pub case_of_setting : Setting → ℕ
case_of_setting Setting.router_port = 0
case_of_setting Setting.controller_port = 2
case_of_setting Setting.controller_update_interval = 3
case_of_setting Setting.router_update_interval = 4
case_of_setting Setting.default_ttl_value = 5
case_of_setting Setting.default_ping_packet_count = 6
case_of_setting Setting.default_packet_timeout_value = 7
case_of_setting Setting.default_dv_timeout_value = 8
case_of_setting Setting.poll_timeout_value = 9

-- The configuration with the setting's own field changed.
abbrev pub with_setting : Setting → ℤ → Configuration → Configuration
with_setting Setting.router_port z conf = record conf { router_port = some z }
with_setting Setting.controller_port z conf = record conf { controller_port = some z }
with_setting Setting.controller_update_interval z conf = record conf {
  controller_update_interval = some z;
}
with_setting Setting.router_update_interval z conf = record conf { router_update_interval = some z }
with_setting Setting.default_ttl_value z conf = record conf { default_ttl_value = some z }
with_setting Setting.default_ping_packet_count z conf = record conf {
  default_ping_packet_count = some z;
}
with_setting Setting.default_packet_timeout_value z conf = record conf {
  default_packet_timeout_value = some z;
}
with_setting Setting.default_dv_timeout_value z conf = record conf {
  default_dv_timeout_value = some z;
}
with_setting Setting.poll_timeout_value z conf = record conf { poll_timeout_value = some z }

-- `name = number`
abbrev pub setting_text : Setting → ℤ → Str
setting_text k z = name_of_setting k ++ b' ' ∷ (codes "=" ++ b' ' ∷ show_int z)

name_of_setting-IsWord : (k : Setting) → IsWord (name_of_setting k)
name_of_setting-IsWord Setting.router_port = omega arith
name_of_setting-IsWord _ = omega arith

third_int-setting : (k : Setting) (z : ℤ) → IsInt z → third_int (setting_text k z) ≡ ok z
unfolding third_int
third_int-setting k z h = run-ok _ _ (
    next-word _ (name_of_setting k) _ (name_of_setting-IsWord k)
    ∙ next-word _ (codes "=") _ (omega arith)
    ∙ int-end _ z h)

read_int-setting :
    (k : Setting) (z : ℤ) (store : ℤ → Configuration → Configuration) (conf : Configuration)
    → IsInt z
    → read_int store (setting_text k z) conf ≡ ok (store z conf)
unfolding read_int
read_int-setting k z store conf h = rw (read_int, third_int-setting k z h) refl

read_case-setting :
    (k : Setting) (z : ℤ) (conf : Configuration)
    → IsInt z
    → read_case (some (case_of_setting k)) (setting_text k z) conf ≡ ok (with_setting k z conf)
unfolding read_case read_cases
read_case-setting Setting.router_port z conf h = read_int-setting Setting.router_port z _ conf h
read_case-setting k z conf h = read_int-setting k z (λ x c. with_setting k x c) conf h

cut_line-last : (s : Str) (d : ℕ) → cut_line (s ++ d ∷ []) ≡ ok s
unfolding cut_line
cut_line-last [] d = refl
cut_line-last (c ∷ s) d =
    let size : length (s ++ d ∷ []) ≡ length (c ∷ s) = omega (arith, length-append s (d ∷ [])) in
    ap ok (ap (λ n. take n ((c ∷ s) ++ d ∷ [])) size ∙ take-length-append (c ∷ s) (d ∷ []))

-- The last byte of the line is cut off, whatever it is.
read_line-cut :
    (trex_match : Str → Str → Bool) (k : Setting) (z : ℤ) (d : ℕ) (conf : Configuration)
    → IsInt z
    → first_match trex_match 0 config_strtable (setting_text k z ++ d ∷ [])
      ≡ some (case_of_setting k)
    → read_line trex_match conf (setting_text k z ++ d ∷ []) ≡ ok (with_setting k z conf)
unfolding read_line
read_line-cut trex_match k z d conf h e =
    rw (read_line, cut_line-last (setting_text k z) d, e) (read_case-setting k z conf h)

-- A line name = number that ends in a newline sets the field of that name to the number and changes
-- nothing else, if the number is an int and the first pattern that the matcher matches the line to
-- is the setting's own.
pub read_line-setting :
    (trex_match : Str → Str → Bool) (k : Setting) (z : ℤ) (conf : Configuration)
    → IsInt z
    → first_match trex_match 0 config_strtable (setting_text k z ++ b'\n' ∷ [])
      ≡ some (case_of_setting k)
    → read_line trex_match conf (setting_text k z ++ b'\n' ∷ []) ≡ ok (with_setting k z conf)
read_line-setting trex_match k z conf h e = read_line-cut trex_match k z b'\n' conf h e
