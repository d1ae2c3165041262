-- ===== src/Relay/Windows.antt =====
-- The throughput of a mailbox: `allow_mailbox_bytes` of native/conest_relay/src/main.rs.
use conest.Base.{ℕ, ◌-◌, Bool, true, false, none, some, ltb, leb, ◌==◌, if◌then◌else◌}
use conest.Base.Text.{Text, TextMap, get, put, retain_values}
use conest.Base.Words.{add_sat64}

pub record MailboxByteWindow : Type 0 where
  pub window_started : ℕ
  pub bytes_used : ℕ

abbrev pub Windows : Type 0
Windows = TextMap MailboxByteWindow

-- The window of a mailbox at `now`: a new one where there is none or a minute is over.
unfoldable pub window_at : Windows → Text → ℕ → MailboxByteWindow
window_at windows mailbox now = elim (get mailbox windows) [
  | none ↦ record { window_started = now; bytes_used = 0 }
  | some w ↦
      if leb 60000 (now - w.window_started)
      then record { window_started = now; bytes_used = 0 }
      else w
]

-- The windows afterwards, and whether the bytes are allowed. A limit of 0 is none.
unfoldable pub allow_mailbox_bytes : ℕ → Windows → Text → ℕ → ℕ → Windows × Bool
allow_mailbox_bytes limit windows mailbox bytes now =
    if limit == 0
    then (windows, true)
    else (let kept = retain_values (λ w. ltb (now - w.window_started) 120000) windows in
        let w = window_at kept mailbox now in
        if ltb limit (add_sat64 w.bytes_used bytes)
        then (put mailbox w kept, false)
        else (put mailbox (record w { bytes_used = add_sat64 w.bytes_used bytes }) kept, true))
