-- ===== src/Messages/Types.antt =====
-- common/messages.h: the message types and the struct, and the small functions on it of
-- common/messages.c.
use re203_projet_reseau.Prelude.{Option, Pointer, ℤ, ◌+ℤ◌, ◌==ℤ◌, if◌then◌else◌, Outcome, Fault}
use re203_projet_reseau.Libc.Decimal.{int_max}

-- The constructors keep the order of the enum, whose values `mess__getAcceptance` returns.
pub data Acceptance : Type 0 where
  not ok toofar ttlzero : Acceptance

pub data MessageType : Type 0 where
  load save show addlink updatelink dellink disconnect : MessageType
  message route routetable : MessageType
  login logout greeting bye poll neighborhood : MessageType
  link vector packet ping pong : MessageType
  none network_debug quit : MessageType

pub record Message : Type 0 where
  pub type : MessageType
  pub s_parameter : Pointer
  pub node1 : Pointer
  pub node2 : Pointer
  pub n_parameter : ℤ
  pub seqnum : ℤ
  pub accept : Acceptance

-- `mess__init`
abbrev pub init_message : Message
init_message = record {
  type = MessageType.none;
  s_parameter = Option.none;
  node1 = Option.none;
  node2 = Option.none;
  n_parameter = ℤ.negsuc 0;
  seqnum = ℤ.negsuc 0;
  accept = Acceptance.not;
}

-- `WEIGHT_ERROR`, `TTL_ERROR` and `ACCEPTANCE_ERROR`
abbrev pub error_code : ℤ
error_code = ℤ.negsuc 0

unfoldable pub get_weight : Option Message → ℤ
get_weight Option.none = error_code
get_weight (Option.some m) = m.n_parameter

-- `return (mess->n_parameter)--`, which overflows at the least `int`
unfoldable pub get_and_dec_ttl : Option Message → Outcome (ℤ × Option Message)
get_and_dec_ttl Option.none = Outcome.ok (error_code, Option.none)
get_and_dec_ttl (Option.some m) =
    if m.n_parameter ==ℤ ℤ.negsuc int_max
    then Outcome.fault Fault.overflow
    else Outcome.ok
        (m.n_parameter, Option.some (record m { n_parameter = m.n_parameter +ℤ ℤ.negsuc 0 }))

unfoldable pub acceptance_value : Acceptance → ℤ
acceptance_value Acceptance.not = ℤ.pos 0
acceptance_value Acceptance.ok = ℤ.pos 1
acceptance_value Acceptance.toofar = ℤ.pos 2
acceptance_value Acceptance.ttlzero = ℤ.pos 3

unfoldable pub get_acceptance : Option Message → ℤ
unfolding acceptance_value
get_acceptance Option.none = error_code
get_acceptance (Option.some m) = acceptance_value m.accept
