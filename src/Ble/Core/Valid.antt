-- ===== src/Ble/Core/Valid.antt =====
-- Every operation keeps the core well formed, and none panics.
pub mod Frame
pub mod Reserve
pub mod Output
pub mod Input
use conest.Base.{ℕ, ◌≤◌, length}
use conest.Base.Words.{u64_max}
use conest.Ble.Backoff
use conest.Ble.Core.{Core, max_links, max_events}
use conest.Ble.Core.Table.{IsTable}

pub record IsValid (c : Core) : Type 0 where
  pub table : IsTable c.next c.links
  pub bounded : c.next ≤ u64_max
  pub few : length c.links ≤ max_links
  pub backoff : Backoff.Bounds.IsValid c.backoff
  pub recent : length c.events ≤ max_events
