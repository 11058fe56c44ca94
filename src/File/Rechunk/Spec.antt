-- ===== src/File/Rechunk/Spec.antt =====
-- What a run of `rechunk_upload_requests` (`src/file.rs`) should come to, said of the source's
-- items alone: no buffer, no chunk size.
use rociadb_core_sdk_rust.Prelude.{
  ℕ, ◌+◌, ◌≤◌, ◌<◌, ◌≡◌, ◌&&◌, ◌⊎◌, inl, inr, Option, none, some, List, [], ◌∷◌, ◌++◌, arith, ltb,
  ◌==◌, if◌then◌else◌, length, length-append, ok, err,
}
use rociadb_core_sdk_rust.Error.{
  Error, Source, io, validation, more_than_declared, fewer_than_declared,
}
use rociadb_core_sdk_rust.File.Rechunk.{Item}

-- The bytes that the source yields before it ends or fails.
abbrev pub received : List Item → List ℕ
received [] = []
received (ok piece ∷ rest) = piece ++ received rest
received (err e ∷ rest) = []

-- The error of an upload that has seen `seen` bytes and has the items still before it: too much
-- at the first item that passes the declared size, too little at a clean end, and a failed read
-- unless every declared byte is in hand and there is at least one.
abbrev pub verdict : ℕ → ℕ → List Item → Option Error
verdict size seen [] =
    if ltb size seen
    then some (validation (more_than_declared size))
    else if seen == size
    then none
    else some (validation (fewer_than_declared seen size))
verdict size seen (ok piece ∷ rest) =
    let later = verdict size (seen + length piece) rest in
    if ltb size seen then some (validation (more_than_declared size)) else later
verdict size seen (err e ∷ rest) =
    if ltb size seen
    then some (validation (more_than_declared size))
    else if ltb 0 size && (seen == size)
    then none
    else some (io "the upload chunk stream" e)

-- No item is a failed read.
abbrev pub NoFailure : List Item → Type 0
NoFailure [] = Unit
NoFailure (ok piece ∷ rest) = NoFailure rest
NoFailure (err e ∷ rest) = ⊥

-- The source yields exactly the declared number of bytes; if that is none at all, it must not fail
-- either.
abbrev pub IsWhole : ℕ → List Item → Type 0
IsWhole size items = (length (received items) ≡ size) × ((0 < size) ⊎ NoFailure items)

-- Once the source is known to have no more, what it would say is no longer asked.
pub verdict-past :
    (size seen : ℕ) (items : List Item)
    → size < seen
    → verdict size seen items ≡ some (validation (more_than_declared size))
verdict-past size seen [] h = ground arith
verdict-past size seen (ok piece ∷ rest) h = ground arith
verdict-past size seen (err e ∷ rest) h = ground arith

-- A piece moves the count on.
pub verdict-ok :
    (size seen : ℕ) (piece : List ℕ) (rest : List Item)
    → seen ≤ size
    → verdict size seen (ok piece ∷ rest) ≡ verdict size (seen + length piece) rest
verdict-ok size seen piece rest h = ground arith

-- A failed read says no more than a clean end once every declared byte is in hand.
pub verdict-forgiven :
    (size : ℕ) (e : Source) (rest : List Item)
    → 0 < size
    → verdict size size (err e ∷ rest) ≡ verdict size size []
verdict-forgiven size e rest h = ground arith

-- A good verdict means that exactly the declared number of bytes was received.
pub verdict-none :
    (size seen : ℕ) (items : List Item)
    → verdict size seen items ≡ none
    → seen + length (received items) ≡ size
verdict-none size seen [] h = ground arith
verdict-none size seen (ok piece ∷ rest) h =
    ground
      (arith, verdict-none size (seen + length piece) rest, length-append piece (received rest))
verdict-none size seen (err e ∷ rest) h = ground arith

pub verdict-whole :
    (size seen : ℕ) (items : List Item)
    → seen + length (received items) ≡ size
    → (0 < size) ⊎ NoFailure items
    → verdict size seen items ≡ none
verdict-whole size seen [] exact clean = ground arith
verdict-whole size seen (ok piece ∷ rest) exact clean =
    let sum : length (piece ++ received rest) ≡ length piece + length (received rest) =
      length-append piece (received rest) in
    let later : verdict size (seen + length piece) rest ≡ none =
      verdict-whole size (seen + length piece) rest (omega (arith, exact, sum)) clean in
    ground (arith, later, sum)
verdict-whole size seen (err e ∷ rest) exact (inl some_bytes) = ground arith
verdict-whole size seen (err e ∷ rest) exact (inr clean) = absurd clean

pub verdict-clean :
    (size seen : ℕ) (items : List Item)
    → verdict size seen items ≡ none
    → (0 < size) ⊎ NoFailure items
verdict-clean size seen [] fine = inr tt
verdict-clean size seen (ok piece ∷ rest) fine =
    verdict-clean size (seen + length piece) rest (ground arith)
verdict-clean size seen (err e ∷ rest) fine = inl (ground arith)
