-- ===== src/Buffer/Rebuilt.antt =====
-- `rebuild` keeps the contents, in one piece, and leaves every other piece its bytes.
use my_git_hub.Common.{◌≡◌, [], ◌∷◌}
use my_git_hub.Buffer.Store.{Ptr, Store}
use my_git_hub.Buffer.Defs.{Buffer}
use my_git_hub.Buffer.Append.{Appended}
use my_git_hub.Buffer.CrcCache.{CrcMaps, invalidate_raw}

module _ (st : Store) (b : Buffer) where
  -- The new piece.
  abbrev pub whole_piece : Ptr
  whole_piece = record { raw = st.next; off = 0; len = b.len }

  -- The right outcome of a `rebuild` of a buffer that has bytes.
  abbrev pub InOne : CrcMaps → Store × CrcMaps × Buffer → Type 0
  InOne maps (st', maps', b') =
      Appended st b [] st' b'
      × (b'.buffers ≡ whole_piece ∷ [])
      × (maps' ≡ invalidate_raw st.next maps)
