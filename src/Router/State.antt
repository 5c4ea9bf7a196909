-- ===== src/Router/State.antt =====
-- router/router.hpp, router/exec.hpp and router/display.hpp: the state of the router, and what it shows
-- to the user. Times are the milliseconds of `hdclock`.
use re203_projet_reseau.Prelude.{
  ℕ, Bool, false, List, [], ◌∷◌, ◌++◌, Option, none, some, Str, Pointer, get_elem?, set,
  if◌then◌else◌, ℤ, pos, negsuc, ◌==ℤ◌, ◌+ℤ◌, Outcome, ok, fault, null_pointer, uninitialised,
  overflow, dangling, ◌>>=◌,
}
use re203_projet_reseau.Libc.Decimal.{int_max, is_int}
use re203_projet_reseau.Config.{Configuration}
use re203_projet_reseau.Net.Client.{Client, client_set_id}
use re203_projet_reseau.Net.Update.{World}
use re203_projet_reseau.Router.Table.{ClientPointer, RouteTable}

-- One call of a function of `Display`.
pub data Notice : Type 0 where
  err_unreachable err_unknown mess_sent : Notice
  mess_deliv : ℕ → Notice
  mess_received : Pointer → Notice
  ping_echo : Str → Str → ℤ → Notice
  -- the number of successes, the number of packets, the least and greatest time and the sum
  ping_result : ℤ → ℤ → ℤ → ℤ → ℤ → Notice
  route_init : Str → Str → Notice
  route_hop : ℤ → Str → Notice
  route_result : ℤ → ℕ → Notice
  routetable : RouteTable → Notice
  login_message : Str → Notice
  -- `Action non reconnue`, of both switches
  not_recognised : Notice

-- A `std::map` from sequence numbers. The order of its keys is not used.
pub record Exec : Type 0 where
  pub is_waiting_for_route : Bool
  pub route_dest : Pointer
  pub route_count : ℤ
  pub ping_count : ℤ
  pub ping_time_tables : List (ℤ × ℕ)
  pub ping_min : ℤ
  pub ping_max : ℤ
  pub ping_avg : ℤ
  pub ping_succ : ℤ
  pub message_time : ℕ
  pub route_time : ℕ
  pub message_times : List (ℤ × ℤ)

-- `client` is the variable of `network__update` while that function runs.
pub record Router : Type 0 where
  pub name : Str
  pub table : RouteTable
  pub controller : ClientPointer
  pub config : Configuration
  pub seqnum : ℤ
  pub exec : Exec
  pub is_running : Bool
  pub client : Option Client
  pub shown : List Notice

-- The constructor of `Exec`.
unfoldable pub new_exec : Exec
new_exec = record {
  is_waiting_for_route = false;
  route_dest = none;
  route_count = pos 0;
  ping_count = pos 0;
  ping_time_tables = [];
  ping_min = pos int_max;
  ping_max = negsuc int_max;
  ping_avg = pos 0;
  ping_succ = pos 0;
  message_time = 0;
  route_time = 0;
  message_times = [];
}

abbrev pub with_table : World Router → RouteTable → World Router
with_table w t = record w { state = record w.state { table = t } }

abbrev pub with_exec : World Router → Exec → World Router
with_exec w x = record w { state = record w.state { exec = x } }

abbrev pub show : World Router → Notice → World Router
show w n = record w { state = record w.state { shown = w.state.shown ++ n ∷ [] } }

-- What a `Client *` points to. Nothing is known of an entry of the array that is not in use.
unfoldable pub client_at : World Router → ClientPointer → Outcome Client
client_at w ClientPointer.null = fault null_pointer
client_at w (ClientPointer.in_array i) = elim (get_elem? w.network.clients i) [
  | none ↦ fault uninitialised
  | some c ↦ ok c
]
client_at w ClientPointer.local = elim w.state.client [ none ↦ fault dangling | some c ↦ ok c ]

unfoldable pub put_client : World Router → ClientPointer → Client → World Router
put_client w ClientPointer.null c = w
put_client w (ClientPointer.in_array i) c = record w {
  network = record w.network { clients = set w.network.clients i c };
}
put_client w ClientPointer.local c = record w { state = record w.state { client = some c } }

-- `strcpy (c->id, id)`
unfoldable pub name_client : World Router → ClientPointer → Str → Outcome (World Router)
unfolding put_client
name_client w p id = do
  c ← client_at w p
  named ← client_set_id c (some id)
  ok (put_client w p named)

-- A field of the configuration that no line has set is memory that nothing has written.
unfoldable pub setting : Option ℤ → Outcome ℤ
setting none = fault uninitialised
setting (some z) = ok z

-- `++n`
unfoldable pub increment : ℤ → Outcome ℤ
increment z = if is_int (z +ℤ pos 1) then ok (z +ℤ pos 1) else fault overflow

-- `newSeqnum`
unfoldable pub new_seqnum : World Router → Outcome (ℤ × World Router)
unfolding increment
new_seqnum w = do
  seq ← increment w.state.seqnum
  ok (seq, record w { state = record w.state { seqnum = seq } })

module _ {ℓ} {A : Type ℓ} where
  unfoldable pub lookup : ℤ → List (ℤ × A) → Option A
  lookup k [] = none
  lookup k ((j, v) ∷ m) = let rest = lookup k m in if j ==ℤ k then some v else rest

  unfoldable pub erase : ℤ → List (ℤ × A) → List (ℤ × A)
  erase k [] = []
  erase k ((j, v) ∷ m) = let rest = erase k m in if j ==ℤ k then rest else (j, v) ∷ rest

  unfoldable pub store : ℤ → A → List (ℤ × A) → List (ℤ × A)
  store k v m = (k, v) ∷ erase k m
