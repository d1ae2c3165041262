-- ===== src/Ble/Core.antt =====
-- `Core` of native/conest_native/src/ble/core.rs: the table of links, the failed peers, and the
-- events that wait for the application. An operation returns the new core with its result. The
-- base64 encoder of the events' data is a library's, and a parameter here.
pub mod Table
pub mod Valid
pub mod Calls
pub mod Removal
pub mod Crossing
pub mod Events
mod Tests
use conest.Base.{
  ℕ, ◌+◌, ◌-◌, ◌*◌, ◌/◌, ◌%◌, ◌≤◌, ◌<◌, ◌≡◌, Bool, true, false, not, ◌&&◌, ◌||◌, Option, none, some,
  List, [], ◌∷◌, ◌++◌, ltb, leb, ◌==◌, if◌then◌else◌, length, is_some, min, take, drop,
}
use conest.Base.Words.{u64_max, add_sat32, add_sat64}
use conest.Base.Outcome.{ok, err, panics}
use conest.Base.OrdMap
use conest.Base.OrdMap.{lookup, contains_key, insert, update}
use conest.Ble.Reassembler
use conest.Ble.Reassembler.{Reassembler}
use conest.Ble.LinkId
use conest.Ble.Link
use conest.Ble.Link.{
  Link, Role, central, peripheral, same_role, new_link, is_expired, limit_or_zero,
}
use conest.Ble.Backoff
use conest.Ble.Backoff.{back_off, is_waiting}

abbrev pub max_links : ℕ
max_links = 8

abbrev pub max_events : ℕ
max_events = 256

-- A text is the list of its bytes.
pub record Status : Type 0 where
  pub adapter : Option (List ℕ)
  pub powered : Bool
  pub central : Bool
  pub peripheral : Bool
  pub scanning : Bool
  pub problem : Option (List ℕ)
  pub dropped_events : ℕ
  pub dropped_input : ℕ

pub record Event : Type 0 where
  pub link : List ℕ
  pub payload : List ℕ

pub record Poll : Type 0 where
  pub events : List Event
  pub links : List (List ℕ × ℕ)
  pub status : Status

abbrev pub Links : Type 0
Links = List (ℕ × Link)

pub record Core : Type 0 where
  pub local : ℕ
  pub next : ℕ
  pub links : Links
  pub backoff : Backoff.Table
  pub events : List Event
  pub status : Status

pub default : Core
default = record {
  local = 0;
  next = 0;
  links = [];
  backoff = [];
  events = [];
  status = record {
    adapter = none;
    powered = false;
    central = false;
    peripheral = false;
    scanning = false;
    problem = none;
    dropped_events = 0;
    dropped_input = 0;
  };
}

pub set_local : Core → ℕ → Core
set_local c local = record c { local = local }

-- A failed link of this device's own making is noted against its peer.
forget : Core → ℕ → Bool → ℕ → Link → Core
forget c id failed now link =
    let c' = record c { links = OrdMap.remove id c.links } in
    if failed && same_role link.role central
    then record c' { backoff = back_off c.backoff link.peer now }
    else c'

pub remove : Core → ℕ → Bool → ℕ → Core
remove c id failed now = elim (lookup id c.links) [
  | none ↦ c
  | some link ↦ forget c id failed now link
]

pub clear_links : Core → Core
clear_links c = record c { links = []; events = [] }

expired : ℕ → Links → List ℕ
expired now [] = []
expired now ((id, l) ∷ m) = let rest = expired now m in if is_expired l now then id ∷ rest else rest

pub remove_all : Core → List ℕ → ℕ → Core
remove_all c [] now = c
remove_all c (id ∷ ids) now = remove_all (remove c id true now) ids now

pub expire : Core → ℕ → Core
expire c now = remove_all c (expired now c.links) now

-- The first link to a peer, with its id.
pub find_peer : ℕ → Links → Option (ℕ × Link)
find_peer peer [] = none
find_peer peer ((id, l) ∷ m) = if l.peer == peer then some (id, l) else find_peer peer m

-- The direction that a crossed link keeps.
pub preferred : ℕ → ℕ → Role
preferred local peer = if ltb local peer then central else peripheral

-- The end of `reserve`: room for one more link, and an id that was never used.
pub place : Core → ℕ → Role → ℕ → Core × Option ℕ
place c peer role now =
    if leb max_links (length c.links) || leb u64_max c.next then (c, none) else (
      record c { next = c.next + 1; links = insert (c.next + 1) (new_link peer role now) c.links },
      some (c.next + 1),
    )

cross : Core → ℕ → Role → ℕ → ℕ × Link → Core × Option ℕ
cross c peer role now (id, old) =
    if same_role old.role role || not (same_role role (preferred c.local peer))
    then (c, none)
    else place (expire (remove c id false now) now) peer role now

lone : Core → ℕ → Role → ℕ → Core × Option ℕ
lone c peer role now =
    if same_role role central && is_waiting c.backoff peer now
    then (c, none)
    else place (expire c now) peer role now

pub reserve : Core → ℕ → Role → ℕ → Core × Option ℕ
reserve c peer role now =
    if peer == c.local || peer == 0 then (c, none) else (elim (find_peer peer c.links) [
      | some found ↦ cross c peer role now found
      | none ↦ lone c peer role now
    ])

-- The first link to a peer in a role.
find_link : ℕ → Role → Links → Option ℕ
find_link peer role [] = none
find_link peer role ((id, l) ∷ m) =
    if l.peer == peer && same_role l.role role then some id else find_link peer role m

pub peer_link : Core → ℕ → Role → Option ℕ
peer_link c peer role = find_link peer role c.links

pub has_peer : Core → ℕ → Bool
has_peer c peer = is_some (find_peer peer c.links)

pub contains : Core → ℕ → Bool
contains c id = contains_key id c.links

in_role : Role → Links → List ℕ
in_role role [] = []
in_role role ((id, l) ∷ m) =
    let rest = in_role role m in if same_role l.role role then id ∷ rest else rest

pub role_links : Core → Role → List ℕ
role_links c role = in_role role c.links

-- A write through `links.get_mut(&id)`.
abbrev pub set_link : Core → ℕ → Link → Core
set_link c id link = record c { links = update id link c.links }

pub ready : Core → ℕ → ℕ → Core × Bool
ready c id limit = elim (lookup id c.links) [
  | none ↦ (c, false)
  | some link ↦ if limit == 0 then (c, false) else (
    record (set_link c id (record link { limit = some (min limit Link.max_write) })) {
      backoff = OrdMap.remove link.peer c.backoff;
    },
    true,
  )
]

-- What follows a successful `reserve` in `admit_peripheral`.
greet : Core × Option ℕ → ℕ → ℕ → Core × Option ℕ
greet (c, none) limit now = (c, none)
greet (c, some id) limit now =
    let (c', is_ready) = ready c id limit in
    if is_ready then (c', some id) else (remove c' id false now, none)

pub admit_peripheral : Core → ℕ → ℕ → ℕ → Core × Option ℕ
admit_peripheral c peer limit now = elim (peer_link c peer peripheral) [
  | some id ↦ (c, some id)
  | none ↦ greet (reserve c peer peripheral now) limit now
]

pub enqueue : Core → ℕ → List ℕ → Core × Bool
enqueue c id packet = elim (lookup id c.links) [
  | none ↦ (c, false)
  | some link ↦ let (link', taken) = Link.enqueue link packet in (set_link c id link', taken)
]

abbrev pub keys {ℓ} : {V : Type ℓ} → List (ℕ × V) → List ℕ
keys [] = []
keys ((k, v) ∷ m) = k ∷ keys m

-- `Some(*id) != except`
abbrev excluded : ℕ → Option ℕ → Bool
excluded id none = false
excluded id (some other) = id == other

broadcast_to : Core → List ℕ → Option ℕ → List ℕ → Core × ℕ
broadcast_to c packet except [] = (c, 0)
broadcast_to c packet except (id ∷ ids) =
    let (c', taken) = if excluded id except then (c, false) else enqueue c id packet in
    let (c'', n) = broadcast_to c' packet except ids in (c'', if taken then n + 1 else n)

pub broadcast : Core → List ℕ → Option ℕ → Core × ℕ
broadcast c packet except = broadcast_to c packet except (keys c.links)

pub take_write : Core → ℕ → Core × Option (List ℕ)
take_write c id = elim (lookup id c.links) [
  | none ↦ (c, none)
  | some link ↦ let (link', packet) = Link.take_write link in (set_link c id link', packet)
]

abbrev pub drop_input : Core → Core
drop_input c = record c {
  status = record c.status { dropped_input = add_sat64 c.status.dropped_input 1 };
}

-- A full buffer of events loses its oldest.
pub push_event : Core → Event → Core
push_event c event =
    let c' =
      if leb max_events (length c.events)
      then record c {
        events = drop 1 c.events;
        status = record c.status { dropped_events = add_sat64 c.status.dropped_events 1 };
      }
      else c in
    record c' { events = c'.events ++ event ∷ [] }

module _ (encode : List ℕ → List ℕ) where
  -- One packet of a chunk. `link` is borrowed from the table meanwhile.
  pub accept : ℕ → ℕ → Core × Link → List ℕ → Core × Link
  accept id now (c, link) packet =
      let link' = record link { packets = add_sat32 link.packets 1 } in
      if ltb Link.max_packets_per_second link'.packets then (drop_input c, link') else (
        push_event c (record { link = LinkId.id id; payload = encode packet }),
        record link' { heard = now },
      )

  -- The loop over the packets of one chunk.
  pub deliver : ℕ → ℕ → Core × Link → List (List ℕ) → Core × Link
  deliver id now x [] = x
  deliver id now x (packet ∷ packets) = deliver id now (accept id now x packet) packets

  -- What follows `link.input.push`; `none` stands for a panic.
  sort : Core → ℕ → ℕ → Link → Reassembler.Pushed → Option Core
  sort c id now link (input, ok packets) =
      let (c', link') = deliver id now (c, record link { input = input }) packets in
      some (set_link c' id link')
  sort c id now link (input, err e) =
      some (set_link (drop_input c) id (record link { input = input }))
  sort c id now link (input, panics) = none

  take_chunk : Core → ℕ → ℕ → List ℕ → Link → Option Core
  take_chunk c id now chunk link =
      if Link.refuses link chunk
      then some (set_link (drop_input c) id (record link { input = Reassembler.default }))
      else sort c id now link (Reassembler.push link.input chunk now)

  -- `none` stands for a panic.
  pub receive : Core → ℕ → List ℕ → ℕ → Option Core
  receive c id chunk now = elim (lookup id c.links) [
    | none ↦ some c
    | some link ↦ take_chunk c id now chunk (Link.count_chunk link (length chunk) now)
  ]

-- The ready links with their limits. The texts of ids are in the order of the ids.
limits_of : Links → List (List ℕ × ℕ)
limits_of [] = []
limits_of ((id, l) ∷ m) = elim l.limit [
  | none ↦ limits_of m
  | some limit ↦ (LinkId.id id, limit) ∷ limits_of m
]

pub limits : Core → List (List ℕ × ℕ)
limits c = limits_of c.links

pub poll : Core → Core × Poll
poll c = (
  record c { events = drop (min (length c.events) 32) c.events },
  record { events = take (min (length c.events) 32) c.events; links = limits c; status = c.status },
)

pub scan_due : ℕ → Bool
scan_due now = ltb (now % 30000) 20000
