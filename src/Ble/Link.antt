-- ===== src/Ble/Link.antt =====
-- A link of native/conest_native/src/ble/core.rs: its role, its bounded queue of packets to write
-- and its receive window. A `VecDeque` is a list, its front first.
pub mod Valid
pub mod Fifo
use conest.Base.{
  ℕ, ◌+◌, ◌-◌, ◌*◌, ◌/◌, ◌≤◌, ◌<◌, ◌≡◌, refl, Bool, true, false, not, ◌&&◌, ◌||◌, Option, none,
  some, List, [], ◌∷◌, ◌++◌, arith, ltb, leb, ◌==◌, if◌then◌else◌, length, length-append, is_some,
  min, All, All-append, if_ind,
}
use conest.Base.Words.{add_sat32, add_sat64}
use conest.Ble.Reassembler.{Reassembler, is_empty}
use conest.Ble.Reassembler
use conest.Ble.Packet

abbrev pub max_write : ℕ
max_write = 512

abbrev pub max_queue_bytes : ℕ
max_queue_bytes = 16 * 1024

abbrev pub max_queue_packets : ℕ
max_queue_packets = 64

abbrev pub max_chunks_per_second : ℕ
max_chunks_per_second = 256

abbrev pub max_bytes_per_second : ℕ
max_bytes_per_second = 16 * 1024

abbrev pub max_packets_per_second : ℕ
max_packets_per_second = 40

pub data Role : Type 0 where
  central peripheral : Role

abbrev pub same_role : Role → Role → Bool
same_role central central = true
same_role peripheral peripheral = true
same_role _ _ = false

pub record Link : Type 0 where
  pub peer : ℕ
  pub role : Role
  pub limit : Option ℕ
  pub queue : List (List ℕ)
  pub queued_bytes : ℕ
  pub input : Reassembler
  pub since : ℕ
  pub heard : ℕ
  pub second : ℕ
  pub chunks : ℕ
  pub bytes : ℕ
  pub packets : ℕ

-- The link that `reserve` inserts.
unfoldable pub new_link : ℕ → Role → ℕ → Link
new_link peer role now = record {
  peer = peer;
  role = role;
  limit = none;
  queue = [];
  queued_bytes = 0;
  input = Reassembler.default;
  since = now;
  heard = now;
  second = now / 1000;
  chunks = 0;
  bytes = 0;
  packets = 0;
}

abbrev pub limit_or_zero : Option ℕ → ℕ
limit_or_zero none = 0
limit_or_zero (some n) = n

-- The test of `expire`: not ready within 15 seconds, or silent for two minutes.
unfoldable pub is_expired : Link → ℕ → Bool
is_expired l now = not (is_some l.limit) && ltb 15000 (now - l.since) || ltb 120000 (now - l.heard)

-- The packets that `enqueue` does not take.
abbrev pub no_room : Link → List ℕ → Bool
no_room l packet =
    is_empty packet
    || ltb (limit_or_zero l.limit) (length packet)
    || leb max_queue_packets (length l.queue)
    || ltb max_queue_bytes (l.queued_bytes + length packet)

abbrev push_back : Link → List ℕ → Link
push_back l packet = record l {
  queue = l.queue ++ packet ∷ [];
  queued_bytes = l.queued_bytes + length packet;
}

-- The body of `enqueue` on its link: the link and whether the packet was taken.
unfoldable pub enqueue : Link → List ℕ → Link × Bool
enqueue l packet = if no_room l packet then (l, false) else (push_back l packet, true)

-- The body of `take_write`.
pop_front : Link → List (List ℕ) → Link × Option (List ℕ)
pop_front l [] = (l, none)
pop_front l (packet ∷ rest) =
    (record l { queue = rest; queued_bytes = l.queued_bytes - length packet }, some packet)

unfoldable pub take_write : Link → Link × Option (List ℕ)
unfolding pop_front
take_write l = pop_front l l.queue

-- The counts of the current second, with the chunk of `n` bytes counted in.
unfoldable pub count_chunk : Link → ℕ → ℕ → Link
count_chunk l n now =
    let l' =
      if l.second == now / 1000
      then l
      else record l { second = now / 1000; chunks = 0; bytes = 0; packets = 0 } in
    record l' { chunks = add_sat32 l'.chunks 1; bytes = add_sat64 l'.bytes n }

-- The chunks that `receive` drops before it looks inside.
unfoldable pub refuses : Link → List ℕ → Bool
refuses l chunk =
    is_empty chunk
    || ltb Packet.max_packet (length chunk)
    || not (is_some l.limit)
    || ltb max_chunks_per_second l.chunks
    || ltb max_bytes_per_second l.bytes

-- The bytes of all packets in a queue.
abbrev pub total : List (List ℕ) → ℕ
total [] = 0
total (p ∷ ps) = length p + total ps

pub record IsValid (l : Link) : Type 0 where
  pub known : 0 < l.peer
  pub narrow : limit_or_zero l.limit ≤ max_write
  pub short : length l.queue ≤ max_queue_packets
  pub counted : l.queued_bytes ≡ total l.queue
  pub light : l.queued_bytes ≤ max_queue_bytes
  pub filled : All (λ p. (0 < length p) × (length p ≤ max_write)) l.queue
  pub input : Reassembler.Valid.IsValid l.input
