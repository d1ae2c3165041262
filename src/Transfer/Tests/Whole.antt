-- ===== src/Transfer/Tests/Whole.antt =====
-- A whole transfer of one block: received, closed and delivered, and cut off by a crash.
use conest.Base.{ℕ, ◌+◌, ◌≡◌, refl, true, none, some, List, [], ◌∷◌, take, arith, inl, subst}
use conest.Base.Bytes.{be_bytes, from_be, from_be_onto, slice}
use conest.Base.OrdSet.{contains, insert}
use conest.Base.Outcome.{Outcome, ok, err, panics, ◌>>=◌}
use conest.Base.Text.{same_text}
use conest.Transfer.{TransferError}
use conest.Transfer.Manifest.{validate, expected_plaintext_len, digest, digest_input}
use conest.Transfer.Frame.{AttachmentBlockFrame, encrypt, decrypt, encode, decode}
use conest.Transfer.Journal.{
  append, open_journal, load_journal_records, load_records, record_bytes, record_prefix,
  journal_tag,
}
use conest.Transfer.Partial.{
  PartialTransfer, System, promoted, set_len, write_at, open_partial, receive_encoded_block,
  store_block, settle, checkpoint, append_all, is_complete, deliver, finalize, received_bytes,
}
use conest.Transfer.Partial.Live.{Live, IsGenuine, Holds, has_block}
use conest.Transfer.Partial.Live.Crash.{checkpoints, open_partial-Called}
use conest.Transfer.Partial.Live.Finish.{finalize_full}
use conest.Transfer.Partial.Live.Progress.{receive_twice, receive-encrypt, block-IsGenuine}
use conest.Transfer.Partial.Live.Reach.{Reached, fresh, received, Reached-Live, finalize-Reached}
use conest.Transfer.Tests.{
  checksum, toy, toy-IsLawful, source, manifest, manifest_valid, expected_three,
}

abbrev key : List ℕ
key = 1 ∷ []

or_nothing : Outcome TransferError (List ℕ) → List ℕ
or_nothing (ok b) = b
or_nothing (err e) = []
or_nothing panics = []

frame : AttachmentBlockFrame
unfolding manifest
frame = record {
  manifest_digest_prefix = from_be (take 8 (digest toy manifest));
  block_index = 0;
  plaintext_len = 3;
  plaintext_sha256 = toy.sha256 source;
  ciphertext = 7 ∷ 8 ∷ 9 ∷ 9 ∷ 9 ∷ 9 ∷ 9 ∷ 9 ∷ 9 ∷ 9 ∷ 9 ∷ 9 ∷ 9 ∷ 9 ∷ 9 ∷ 9 ∷ 9 ∷ 9 ∷ 9 ∷ [];
}

encoded : List ℕ
unfolding or_nothing
encoded = or_nothing (encode frame)

read : decode encoded ≡ ok frame
unfolding encoded or_nothing encode frame be_bytes from_be from_be_onto digest digest_input manifest
    checksum decode same_text slice
read = refl

opens : decrypt toy frame manifest key ≡ ok source
unfolding decrypt frame expected_plaintext_len validate manifest same_text checksum digest
    digest_input from_be from_be_onto be_bytes
opens = refl

-- Nothing fails; the clock stands.
abbrev calm : System
calm = record { write_stops = none; syncs = true; append_stops = λ i. none; now = 0 }

start : PartialTransfer
unfolding manifest
start = record {
  manifest = manifest;
  key = key;
  file = record { contents = 0 ∷ 0 ∷ 0 ∷ []; stored = 0 ∷ 0 ∷ 0 ∷ [] };
  journal = record { file = []; key = key; durable = [] };
  pending = [];
  pending_bytes = 0;
  last_checkpoint = 0;
}

started : open_partial toy manifest key [] [] 0 ≡ ok start
unfolding open_partial start open_journal load_journal_records load_records validate manifest
    set_len
started = refl

genuine : IsGenuine toy manifest key source encoded
unfolding frame
genuine =
    block-IsGenuine toy toy-IsLawful manifest key source refl 0 3 frame encoded expected_three
      expected_three read opens refl

full : PartialTransfer
full = (receive_encoded_block toy calm encoded start).1

full-Reached : Reached toy manifest key source full
unfolding full
full-Reached = received start calm encoded (fresh [] 0 start started) genuine (λ i. refl)

full_returns : (finalize toy calm promoted none full).0 ≡ ok tt
unfolding finalize deliver checkpoint append_all append contains insert record_bytes record_prefix
    journal_tag be_bytes is_complete full receive_encoded_block store_block settle start encoded
    or_nothing encode frame decode decrypt expected_plaintext_len validate manifest same_text
    checksum digest digest_input from_be from_be_onto slice write_at
full_returns = refl

finalize-Reached_example :
    (finalize toy calm promoted none full).1 ≡ record { partial = none; destination = some source }
unfolding manifest
finalize-Reached_example =
    finalize-Reached toy toy-IsLawful manifest key source refl manifest_valid calm promoted none
      full full-Reached (λ i. refl) full_returns

start-Live : Live toy toy-IsLawful manifest key source start
unfolding manifest
start-Live =
    Reached-Live toy toy-IsLawful manifest key source refl manifest_valid start
      (fresh [] 0 start started)

receive-encrypt_example :
    (bytes : List ℕ) × ((do f ← encrypt toy manifest key 0 source; encode f) ≡ ok bytes)
    × (has_block toy toy-IsLawful manifest key source
          (receive_encoded_block toy calm bytes start).1
          0
        ≡ true)
unfolding manifest
receive-encrypt_example =
    receive-encrypt toy toy-IsLawful manifest key source refl calm start 0 3 start-Live (λ i. refl)
      refl expected_three

full_has_first : has_block toy toy-IsLawful manifest key source full 0 ≡ true
unfolding full receive_encoded_block store_block settle start encoded or_nothing encode frame decode
    decrypt expected_plaintext_len validate manifest same_text checksum digest digest_input from_be
    from_be_onto be_bytes slice write_at contains
full_has_first = refl

-- The block is journalled, and power is lost.
journalled : PartialTransfer
journalled = (checkpoint toy calm full).1

journalled_file : journalled.file ≡ record { contents = source; stored = source }
unfolding journalled checkpoint append_all append contains insert record_bytes record_prefix
    journal_tag be_bytes full receive_encoded_block store_block settle start encoded or_nothing
    encode frame decode decrypt expected_plaintext_len validate manifest same_text checksum digest
    digest_input from_be from_be_onto slice write_at
journalled_file = refl

open_partial-Called_example :
    (q : PartialTransfer) × (open_partial toy manifest key source journalled.journal.file 9 ≡ ok q)
    × ((i : ℕ) → contains i journalled.journal.durable ≡ true → contains i q.journal.durable ≡ true)
    × ((i : ℕ)
        → contains i q.journal.durable ≡ true
        → Holds toy toy-IsLawful manifest key source source i)
unfolding manifest journalled
open_partial-Called_example =
    open_partial-Called toy toy-IsLawful manifest key source refl manifest_valid full journalled
      source 9 full-Reached (checkpoints calm)
      (rw journalled_file (record { sized = refl; bytes = λ x. inl refl }))

receive_twice_example :
    let once = (receive_encoded_block toy calm encoded start).1 in
    (receive_encoded_block toy calm encoded once).0 ≡ ok (received_bytes start + 3 + 3)
unfolding frame start contains
receive_twice_example =
    receive_twice toy frame source encoded read calm calm start opens refl refl refl (omega arith)
      (omega arith) (omega arith)

finalize_full_example :
    finalize toy calm promoted none full
    ≡ (ok tt, record { partial = none; destination = some source })
unfolding manifest checksum
finalize_full_example =
    finalize_full toy toy-IsLawful manifest key source refl manifest_valid calm none full refl
      (λ i. refl)
      (Reached-Live toy toy-IsLawful manifest key source refl manifest_valid full full-Reached)
      (λ i h.
        subst (λ j. has_block toy toy-IsLawful manifest key source full j ≡ true) (omega arith)
          full_has_first)
      refl
