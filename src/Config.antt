-- ===== src/Config.antt =====
-- common/config.h and common/config.c: the configuration and the lines that it is read from.
pub mod Settings
use re203_projet_reseau.Prelude.{
  get_elem?, ℕ, ◌+◌, ◌-◌, Bool, List, [], ◌∷◌, Option, none, some, Str, Pointer, codes, length,
  take, leb, if◌then◌else◌, ℤ, Outcome, ok, fault, null_pointer, out_of_bounds, uninitialised,
}
use re203_projet_reseau.Messages.Regexes.{first_match}
use re203_projet_reseau.Messages.Reader.{◌>>=◌, next, next_int, give, run}

pub data SoftwareType : Type 0 where
  router controller : SoftwareType

-- The struct comes from `malloc`: a field is none until a line gives it a value.
pub record Configuration : Type 0 where
  pub type : SoftwareType
  pub controller_address : Option Str
  pub router_port : Option ℤ
  pub controller_port : Option ℤ
  pub poll_timeout_value : Option ℤ
  pub controller_update_interval : Option ℤ
  pub router_update_interval : Option ℤ
  pub default_ttl_value : Option ℤ
  pub default_ping_packet_count : Option ℤ
  pub default_packet_timeout_value : Option ℤ
  pub default_dv_timeout_value : Option ℤ

-- The patterns that the loop tries; it leaves out the last one of the table.
abbrev pub config_strtable : List Str
config_strtable =
    codes "router-port = \\d*\\c"
    ∷ codes "controller-address = \\d*\\.\\d*\\.\\d*\\.\\d*\\c"
    ∷ codes "controller-port = \\d*\\c"
    ∷ codes "controller-update-interval = \\d*\\c"
    ∷ codes "router-update-interval = \\d*\\c"
    ∷ codes "default-ttl-value = \\d*\\c"
    ∷ codes "default-ping-packet-count = \\d*\\c"
    ∷ codes "default-packet-timeout-value = \\d*\\c"
    ∷ codes "default-dv-timeout-value = \\d*\\c"
    ∷ codes "poll-timeout-value = \\d*\\c"
    ∷ codes "#.*\\c"
    ∷ codes "\\c"
    ∷ []

-- `atoi (strtok (NULL, " "))` behind two tokens that are skipped
unfoldable pub third_int : Str → Outcome ℤ
third_int = run (next >>= λ name. next >>= λ sign. next_int >>= give)

unfoldable pub third_token : Str → Outcome Pointer
third_token = run (next >>= λ name. next >>= λ sign. next >>= give)

-- `strcpy` to the 20 bytes of `controllerAddress`
unfoldable pub copy_address : Pointer → Configuration → Outcome Configuration
copy_address none conf = fault null_pointer
copy_address (some s) conf =
    if leb (length s + 1) 20
    then ok (record conf { controller_address = some s })
    else fault out_of_bounds

-- A case that reads a number and stores it.
unfoldable pub read_int :
    (ℤ → Configuration → Configuration) → Str → Configuration → Outcome Configuration
read_int store s conf = elim (third_int s) [ ok z ↦ ok (store z conf) | fault e ↦ fault e ]

unfoldable pub read_address : Str → Configuration → Outcome Configuration
read_address s conf = elim (third_token s) [ ok p ↦ copy_address p conf | fault e ↦ fault e ]

-- The cases 0 to 9.
unfoldable pub read_cases : List (Str → Configuration → Outcome Configuration)
read_cases =
    read_int (λ z conf. record conf { router_port = some z })
    ∷ read_address
    ∷ read_int (λ z conf. record conf { controller_port = some z })
    ∷ read_int (λ z conf. record conf { controller_update_interval = some z })
    ∷ read_int (λ z conf. record conf { router_update_interval = some z })
    ∷ read_int (λ z conf. record conf { default_ttl_value = some z })
    ∷ read_int (λ z conf. record conf { default_ping_packet_count = some z })
    ∷ read_int (λ z conf. record conf { default_packet_timeout_value = some z })
    ∷ read_int (λ z conf. record conf { default_dv_timeout_value = some z })
    ∷ read_int (λ z conf. record conf { poll_timeout_value = some z })
    ∷ []

-- The switch; a comment, an empty line and a line that is not valid change nothing.
unfoldable pub read_case : Option ℕ → Str → Configuration → Outcome Configuration
read_case none s conf = ok conf
read_case (some i) s conf = elim (get_elem? read_cases i) [
  | none ↦ ok conf
  | some read ↦ read s conf
]

-- `mess_src[strlen (mess_src) - 1] = 0`, whatever the last byte is
unfoldable pub cut_line : Str → Outcome Str
cut_line [] = fault out_of_bounds
cut_line (c ∷ s) = ok (take (length s) (c ∷ s))

module _ (trex_match : Str → Str → Bool) where
  -- `config__readLine`
  unfoldable pub read_line : Configuration → Str → Outcome Configuration
  read_line conf s = elim (cut_line s) [
    | ok t ↦ read_case (first_match trex_match 0 config_strtable s) t conf
    | fault e ↦ fault e
  ]

  -- The loop over the lines that `getline` gives.
  unfoldable pub read_lines : Configuration → List Str → Outcome Configuration
  read_lines conf [] = ok conf
  read_lines conf (s ∷ lines) = elim (read_line conf s) [
    | ok conf' ↦ read_lines conf' lines
    | fault e ↦ fault e
  ]

  -- `config__readController` and `config__readRouter`; none for a file that does not open, where the
  -- functions end with no `return`.
  unfoldable pub read_configuration : SoftwareType → Option (List Str) → Outcome Configuration
  read_configuration t none = fault uninitialised
  read_configuration t (some lines) =
      read_lines
        (record {
          type = t;
          controller_address = none;
          router_port = none;
          controller_port = none;
          poll_timeout_value = none;
          controller_update_interval = none;
          router_update_interval = none;
          default_ttl_value = none;
          default_ping_packet_count = none;
          default_packet_timeout_value = none;
          default_dv_timeout_value = none;
        })
        lines
