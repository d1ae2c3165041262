-- ===== src/Transfer/Partial/Agree.antt =====
-- Where a file holds the bytes of the file that is sent.
use conest.Base.{
  ℕ, ◌+◌, ◌-◌, ◌≤◌, ◌<◌, ◌≡◌, ◌∙◌, subst, List, length, take, drop, get_elem?, arith, Bool-cases,
  inl, inr, ltb, ltb→lt, ltb-false, length-take,
}
use conest.Transfer.Partial.{write_at}
use conest.Transfer.Partial.Bytes.{
  get_elem?-take, get_elem?-drop, list_ext, write_at_inside, write_at_before, write_at_after,
}

module _ (source : List ℕ) where
  abbrev pub Agrees : List ℕ → ℕ → Type 0
  Agrees file x = get_elem? file x ≡ get_elem? source x

  -- The bytes of the source from an offset on.
  abbrev pub PieceAt : ℕ → List ℕ → Type 0
  PieceAt offset bytes =
      (x : ℕ) → x < length bytes → get_elem? bytes x ≡ get_elem? source (offset + x)

  pub take-PieceAt :
      (offset k : ℕ) (bytes : List ℕ) → PieceAt offset bytes → PieceAt offset (take k bytes)
  take-PieceAt offset k bytes h x l =
      get_elem?-take k x bytes (omega (arith, length-take k bytes))
      ∙ h x (omega (arith, length-take k bytes))

  pub drop-PieceAt : (offset n : ℕ) → PieceAt offset (take n (drop offset source))
  drop-PieceAt offset n x l =
      get_elem?-take n x (drop offset source) (omega (arith, length-take n (drop offset source)))
      ∙ get_elem?-drop offset x source

  module _ (offset : ℕ) (bytes file : List ℕ) (fits : offset + length bytes ≤ length file)
      (piece : PieceAt offset bytes) where
    -- What is written agrees.
    pub write_at-covers :
        (x : ℕ) → offset ≤ x → x < offset + length bytes → Agrees (write_at offset bytes file) x
    write_at-covers x h l =
        let e : offset + (x - offset) ≡ x = omega arith in
        subst (λ y. Agrees (write_at offset bytes file) y) e
          (write_at_inside offset (x - offset) bytes file fits (omega arith)
            ∙ piece (x - offset) (omega arith))

    -- Writing bytes of the source spoils nothing.
    pub write_at-Agrees : (x : ℕ) → Agrees file x → Agrees (write_at offset bytes file) x
    write_at-Agrees x a = elim (Bool-cases (ltb x offset)) [
      | inl before ↦ write_at_before offset x bytes file fits (ltb→lt x offset before) ∙ a
      | inr at_least ↦ elim (Bool-cases (ltb x (offset + length bytes))) [
        | inl inside ↦ write_at-covers x (ltb-false x offset at_least) (ltb→lt _ _ inside)
        | inr after ↦
            let past = ltb-false x (offset + length bytes) after in
            let e : offset + length bytes + (x - (offset + length bytes)) ≡ x = omega arith in
            rw e at (write_at_after offset (x - (offset + length bytes)) bytes file fits) ∙ a
      ]
    ]

  -- A file of the same length that agrees everywhere is the source.
  pub Agrees-everywhere :
      (file : List ℕ)
      → length file ≡ length source
      → ((x : ℕ) → x < length source → Agrees file x)
      → file ≡ source
  Agrees-everywhere file e h = list_ext file source e (λ x l. h x (omega arith))
