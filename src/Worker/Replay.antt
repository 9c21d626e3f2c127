-- ===== src/Worker/Replay.antt =====
-- What a worker has been told when it goes live.
use gopls_lazy.Base.{ℕ, Str, none, some, List, [], ◌∷◌, Map}
use gopls_lazy.Documents.{OpenDoc}
use gopls_lazy.Worker.{BufferedNote, WorkerHandle, WorkerNote, did_open, mirrored, observe}

module _ (doc_uri : Str → Str) where
  -- The messages for some documents and then for some notifications, in the order of sending.
  abbrev pub opened : List OpenDoc → List WorkerNote
  opened [] = []
  opened (doc ∷ docs) = did_open doc ∷ opened docs

  abbrev pub mirrored_all : Map OpenDoc → List BufferedNote → List WorkerNote
  mirrored_all docs [] = []
  mirrored_all docs (n ∷ ns) = elim (mirrored doc_uri docs n) [
    | none ↦ mirrored_all docs ns
    | some w ↦ w ∷ mirrored_all docs ns
  ]

  -- The log of a client after some more messages, newest first.
  abbrev pub logged : ℕ → List WorkerNote → List (ℕ × WorkerNote) → List (ℕ × WorkerNote)
  logged c [] log = log
  logged c (w ∷ ws) log = logged c ws ((c, w) ∷ log)

  -- The notifications of the editor, one after the other, each with the open documents of its moment.
  abbrev pub observe_all : List (Map OpenDoc × BufferedNote) → WorkerHandle → WorkerHandle
  observe_all [] h = h
  observe_all ((docs, n) ∷ ns) h = observe_all ns (observe doc_uri docs n h)

  abbrev pub notes : List (Map OpenDoc × BufferedNote) → List BufferedNote
  notes [] = []
  notes ((docs, n) ∷ ns) = n ∷ notes ns
