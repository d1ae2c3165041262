-- ===== src/Relay/Store/Room.antt =====
-- What the checks of a store give: room in the mailbox, in the share of the address and on the relay.
use conest.Base.{
  ℕ, ◌+◌, ◌≤◌, ◌<◌, ◌≡◌, refl, true, Option, none, some, List, arith, ltb, length, if_ind,
}
use conest.Base.Text.{Text, same_option}
use conest.Base.Words.{add_sat64}
use conest.Relay.Table.{Row, Database, select, sizes, insert, is_pairing, is_in}
use conest.Relay.Table.Valid.{IsValid}
use conest.Relay.Store.{
  Config, Envelope, goes_on, ◌>>=◌, new_row, announce, evict_pairing, replace_sender, fit_mailbox,
  check_share, fit_relay, enqueue, is_announcement, mailbox_fits, relay_fits,
  max_pairing_per_mailbox,
}
use conest.Relay.Store.Removals.{
  IsEviction, IsEviction-refl, IsEviction-trans, Ends, Ends-map, Ends->>=,
  replace_sender-IsEviction,
}
use conest.Relay.Store.Evictions.{evict_pairing-Ends, fit_mailbox-Ends, fit_relay-Ends}

-- There is room for one more announcement, where one comes.
abbrev Announces : Text → Envelope → Database → Database → Type 0
Announces mailbox e db d =
    IsEviction db d
    × (is_pairing e.kind ≡ true
        → length (select (is_announcement mailbox) d.rows) < max_pairing_per_mailbox)

-- The rows of an address, with `n` more bytes, are within its share; a sum over the largest u64
-- counts as that. A store of the relay itself has no address and no share.
abbrev pub WithinShare : Config → Option Text → ℕ → Database → Type 0
WithinShare config none n db = Unit {0}
WithinShare config (some address) n db =
    add_sat64 (sizes (select (λ r. same_option r.source (some address)) db.rows)) n
    ≤ config.max_stored_bytes_per_peer

module _ (largest : List Row → Option (Option Text)) where
  announce-Ends :
      (mailbox : Text) (e : Envelope) (db : Database)
      → IsValid db
      → Ends (Announces mailbox e db) (announce largest mailbox e db)
  unfolding announce
  announce-Ends mailbox e db v =
      if_ind (Ends (Announces mailbox e db)) (is_pairing e.kind)
        (evict_pairing (length d.rows + 1) mailbox d) (goes_on db)
        (λ p.
          Ends-map
            (λ c.
              IsEviction d c
              × (length (select (is_announcement mailbox) c.rows) < max_pairing_per_mailbox))
            (Announces mailbox e db) (evict_pairing (length d.rows + 1) mailbox d)
            (λ c k. (IsEviction-trans db d c s k.0, λ _. k.1))
            (evict_pairing-Ends (length d.rows + 1) mailbox d s.valid (omega arith)))
        (λ p. (IsEviction-refl db v, λ q. ground arith))
    where
      d : Database
      d = replace_sender mailbox e.sender db

      s : IsEviction db d
      s = replace_sender-IsEviction mailbox e.sender db v

  -- What precedes the insertion: rows without a lease were evicted, and the envelope has room in
  -- its mailbox, among its announcements, in the share of its address and on the relay.
  pub record HasRoom (config : Config) (source : Option Text) (mailbox : Text) (e : Envelope)
      (db d : Database) : Type 0 where
    pub evicted : IsEviction db d
    pub pairing :
        is_pairing e.kind ≡ true
        → length (select (is_announcement mailbox) d.rows) < max_pairing_per_mailbox
    pub entries : length (select (is_in mailbox) d.rows) < config.max_queue_per_mailbox
    pub bytes :
        add_sat64 (sizes (select (is_in mailbox) d.rows)) (length e.encoded)
        ≤ config.max_mailbox_bytes
    pub share : WithinShare config source (length e.encoded) d
    pub total : add_sat64 d.total (length e.encoded) ≤ config.max_total_bytes

  -- The envelope's row behind an eviction that made room for it.
  abbrev pub IsEnqueued : Config → ℕ → Option Text → Text → Envelope → Database → Database → Type 0
  IsEnqueued config now source mailbox e db c =
      (d : Database) × HasRoom config source mailbox e db d
      × (c ≡ insert (new_row largest now source mailbox e) d)

  check_share-Ends :
      (P : Database → Type 0) (config : Config) (source : Option Text) (n : ℕ) (db : Database)
      → P db
      → Ends (λ d. P d × WithinShare config source n d) (check_share config source n db)
  unfolding check_share
  check_share-Ends P config none n db p = (p, tt)
  check_share-Ends P config (some source) n db p =
      if_ind (Ends (λ d. P d × WithinShare config (some source) n d))
        (ltb config.max_stored_bytes_per_peer
          (add_sat64 (sizes (select (λ r. same_option r.source (some source)) db.rows)) n))
        _ _ (λ _. tt) (λ h. (p, ground (arith, h)))

  -- Evictions leave room in the share.
  WithinShare-IsEviction :
      (config : Config) (source : Option Text) (n : ℕ) (b c : Database)
      → IsEviction b c
      → WithinShare config source n b
      → WithinShare config source n c
  WithinShare-IsEviction config none n b c u h = tt
  WithinShare-IsEviction config (some source) n b c u h =
      omega (arith, h, u.lighter (λ r. same_option r.source (some source)))

  -- The checks of the three steps together, each kept by the evictions behind it.
  room :
      (config : Config) (source : Option Text) (mailbox : Text) (e : Envelope) (db a b c : Database)
      → Announces mailbox e db a
      → IsEviction a b
      → mailbox_fits config mailbox (length e.encoded) b ≡ true
      → WithinShare config source (length e.encoded) b
      → IsEviction b c
      → relay_fits largest config (length e.encoded) c ≡ true
      → HasRoom config source mailbox e db c
  room config source mailbox e db a b c (s, p) t h w u k = record {
    evicted = IsEviction-trans db a c s (IsEviction-trans a b c t u);
    pairing = λ q.
        omega (arith, p q, t.fewer (is_announcement mailbox), u.fewer (is_announcement mailbox));
    entries = ground (arith, u.fewer (is_in mailbox));
    bytes = ground (arith, u.lighter (is_in mailbox));
    share = WithinShare-IsEviction config source (length e.encoded) b c u w;
    total = ground arith;
  }

  pub enqueue-Ends :
      (config : Config) (now : ℕ) (source : Option Text) (mailbox : Text) (e : Envelope)
      (db : Database)
      → IsValid db
      → Ends
          (IsEnqueued config now source mailbox e db)
          (enqueue largest config now source mailbox e db)
  unfolding enqueue
  enqueue-Ends config now source mailbox e db v =
      Ends->>= (Announces mailbox e db) Q (announce largest mailbox e db) _
        (λ a s.
          Ends->>= (λ b. Fits a b × WithinShare config source n b) Q
            (fit_mailbox (length a.rows + 1) config mailbox n a >>= check_share config source n) _
            (λ b t.
              Ends->>= (λ c. IsEviction b c × (relay_fits largest config n c ≡ true)) Q
                (fit_relay largest (length b.rows + 1) config n none b) _
                (λ c u. (c, room config source mailbox e db a b c s t.0.0 t.0.1 t.1 u.0 u.1, refl))
                (fit_relay-Ends largest (length b.rows + 1) config n none b t.0.0.valid
                  (omega arith)))
            (Ends->>= (Fits a) (λ b. Fits a b × WithinShare config source n b)
              (fit_mailbox (length a.rows + 1) config mailbox n a) (check_share config source n)
              (check_share-Ends (Fits a) config source n)
              (fit_mailbox-Ends (length a.rows + 1) config mailbox n a s.0.valid (omega arith))))
        (announce-Ends mailbox e db v)
    where
      n : ℕ
      n = length e.encoded

      Q : Database → Type 0
      Q = IsEnqueued config now source mailbox e db

      Fits : Database → Database → Type 0
      Fits a b = IsEviction a b × (mailbox_fits config mailbox n b ≡ true)
