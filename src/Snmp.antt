-- ===== src/Snmp.antt =====
-- internal/snmpload/plan.go: the bounded load plan. An option or a sequence below zero is refused
-- by the very tests that refuse zero, and is not represented.
pub mod Fixture
pub mod Moves
pub mod Ledger
pub mod Timing
pub mod Total
pub mod Observe
use oscar_corrtest.Base.{
  ℕ, zero, suc, ◌+◌, ◌-◌, ◌*◌, ◌/◌, ◌%◌, String, Bool, true, false, ◌&&◌, ◌||◌, not, List, [], ◌∷◌,
  ◌++◌, Option, none, some, ltb, leb, ◌==◌, str_eq, if◌then◌else◌, any, get_or, set, length, Result,
  ok, err, ◌>>=◌, ◌>>◌, refuse_if,
}
use Fixture.{Episode, Error, bad_options, unknown_profile, fixture}

pub record Options : Type 0 where
  pub port : ℕ
  pub profile : String
  pub rate : ℕ
  pub duration : ℕ
  pub clear_delay : ℕ
  pub drain_timeout : ℕ

pub data Kind : Type 0 where
  problem clear repeat : Kind

pub record Packet : Type 0 where
  pub episode : ℕ
  pub kind : Kind
  pub at_millis : ℕ

pub record Plan : Type 0 where
  pub run_id : String
  pub pattern : String
  pub input_path : String
  pub options : Options
  pub offer_packets : ℕ
  pub episodes : List Episode
  pub packets : List Packet

abbrev pub families : List String
families = "dhcpv6-limit" ∷ "dhcp-limit" ∷ "aaa-server" ∷ "address-pool" ∷ []

unfoldable pub out_of_range : Options → Bool
out_of_range o =
    ltb o.port 1
    || ltb 65535 o.port
    || ltb o.rate 1
    || ltb 25 o.rate
    || ltb o.duration 10
    || ltb 600 o.duration
    || ltb o.clear_delay 1
    || ltb 120 o.clear_delay
    || ltb o.drain_timeout 10
    || ltb 1800 o.drain_timeout

unfoldable pub validate : Options → Result Error (Unit {0})
unfolding out_of_range
validate o = do
  refuse_if (out_of_range o) bad_options
  if str_eq o.profile "mixed" || any (λ f. str_eq o.profile f) families
      then ok tt
      else err unknown_profile

-- The letters of "PPPPRCPCCC".
pub data Slot : Type 0 where
  offer_slot repeat_slot clear_slot : Slot

abbrev slots : List Slot
slots =
    offer_slot ∷ offer_slot ∷ offer_slot ∷ offer_slot ∷ repeat_slot ∷ clear_slot ∷ offer_slot
    ∷ clear_slot ∷ clear_slot ∷ clear_slot ∷ []

-- The variables of the loop in `Compile`.
pub record Load : Type 0 where
  pub episodes : List Episode
  pub created : List ℕ
  pub repeated : List Bool
  pub pending : List ℕ
  pub packets : List Packet

abbrev pub created_at : List ℕ → ℕ → ℕ
created_at created n = get_or created n 0

abbrev pub repeat_due : Options → List ℕ → List Bool → ℕ → ℕ → Bool
repeat_due o created repeated at n =
    not (get_or repeated n false)
    && leb 1000 (at - created_at created n)
    && leb 1000 (created_at created n + o.clear_delay * 1000 - at)

-- The first pending episode that may be repeated.
unfoldable pub find_repeat : Options → List ℕ → List Bool → ℕ → List ℕ → Option ℕ
find_repeat o created repeated at [] = none
find_repeat o created repeated at (n ∷ ns) =
    if repeat_due o created repeated at n then some n else find_repeat o created repeated at ns

-- `kind = "clear"; id = pending[0]`, where the oldest pending episode is old enough.
unfoldable pub find_clear : Options → Load → ℕ → Option (ℕ × List ℕ)
find_clear o s at = elim s.pending [
  | [] ↦ none
  | n ∷ ns ↦ if leb (o.clear_delay * 1000) (at - created_at s.created n) then some (n, ns) else none
]

abbrev pub family_of : Options → ℕ → String
family_of o id =
    if str_eq o.profile "mixed"
    then get_or families (get_or (0 ∷ 1 ∷ 2 ∷ 3 ∷ 0 ∷ 1 ∷ 0 ∷ 2 ∷ 1 ∷ 0 ∷ []) (id % 10) 0) ""
    else o.profile

abbrev pub send : Load → ℕ → Kind → ℕ → List Packet
send s id kind at = s.packets ++ record { episode = id; kind = kind; at_millis = at } ∷ []

abbrev pub announce : Load → ℕ → Episode → Load
announce s at e =
    let id = length s.episodes in
    record {
      episodes = s.episodes ++ e ∷ [];
      created = s.created ++ at ∷ [];
      repeated = s.repeated ++ false ∷ [];
      pending = s.pending ++ id ∷ [];
      packets = send s id problem at;
    }

unfoldable pub begin : String → Options → Load → ℕ → Result Error Load
begin run_id o s at = do
  e ← fixture run_id (length s.episodes) (family_of o (length s.episodes))
  ok (announce s at e)

abbrev pub clear_one : Load → ℕ → ℕ × List ℕ → Load
clear_one s at (n, ns) = record s { pending = ns; packets = send s n clear at }

abbrev pub repeat_one : Load → ℕ → ℕ → Load
repeat_one s at n = record s { repeated = set s.repeated n true; packets = send s n repeat at }

-- One slot: a clear or a repeat where one is due, else a new episode.
unfoldable pub fill : String → Options → Slot → Load → ℕ → Result Error Load
unfolding find_repeat find_clear begin
fill run_id o clear_slot s at = elim (find_clear o s at) [
  | some c ↦ ok (clear_one s at c)
  | none ↦ begin run_id o s at
]
fill run_id o repeat_slot s at = elim (find_repeat o s.created s.repeated at s.pending) [
  | some n ↦ ok (repeat_one s at n)
  | none ↦ begin run_id o s at
]
fill run_id o offer_slot s at = begin run_id o s at

abbrev pub offer_time : Options → ℕ → ℕ
offer_time o i = i * 1000 / o.rate

abbrev pub slot_of : ℕ → Slot
slot_of i = get_or slots (i % 10) offer_slot

-- The first loop, by the rounds that are left.
unfoldable pub offer : String → Options → ℕ → ℕ → Load → Result Error Load
offer run_id o zero i s = ok s
offer run_id o (suc left) i s =
    fill run_id o (slot_of i) s (offer_time o i) >>= λ s'. offer run_id o left (i + 1) s'

abbrev pub spacing : Options → ℕ
spacing o = (1000 + o.rate - 1) / o.rate

abbrev pub later_of : ℕ → ℕ → ℕ
later_of at due = if ltb at due then due else at

-- The second loop: the clears of what is still pending.
unfoldable pub drain : Options → List ℕ → ℕ → List ℕ → List Packet
drain o created at [] = []
drain o created at (id ∷ ids) =
    let at' = later_of at (created_at created id + o.clear_delay * 1000) in
    record { episode = id; kind = clear; at_millis = at' } ∷ drain o created (at' + spacing o) ids

abbrev pub empty_load : Load
empty_load = record { episodes = []; created = []; repeated = []; pending = []; packets = [] }

abbrev pub finish : String → Options → Load → Plan
finish run_id o s = record {
  run_id = run_id;
  pattern = "snmp-load";
  input_path = "snmp-load";
  options = o;
  offer_packets = o.rate * o.duration;
  episodes = s.episodes;
  packets = s.packets ++ drain o s.created (o.duration * 1000) s.pending;
}

unfoldable pub compile : String → Options → Result Error Plan
unfolding validate fill offer drain
compile run_id o = do
  validate o
  s ← offer run_id o (o.rate * o.duration) 0 empty_load
  ok (finish run_id o s)
