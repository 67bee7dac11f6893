-- ===== src/Buffer/Rebuild.antt =====
-- `rebuild` of a `buffer`: its bytes go to one new piece.
use my_git_hub.Common.{ℕ, false, List, [], ◌∷◌, ◌==◌, if◌then◌else◌, is_empty}
use my_git_hub.Common.Words.{add32}
use my_git_hub.Buffer.Store.{Ptr, Store, view, create}
use my_git_hub.Buffer.Defs.{Buffer, begin}
use my_git_hub.Buffer.CrcCache.{CrcMaps, copy_in, invalidate_crc}

-- The loop of `rebuild(nb)`: the place that it comes to.
unfoldable pub rebuild_loop : ℕ → List Ptr → Ptr → Store → CrcMaps → ℕ × Store × CrcMaps
unfolding copy_in
rebuild_loop pos [] nb st maps = (pos, st, maps)
rebuild_loop pos (p ∷ ps) nb st maps =
    let (st', maps') = copy_in false pos (view st p) nb st maps in
    rebuild_loop (add32 pos p.len) ps nb st' maps'

-- `rebuild(nb)`
unfoldable pub rebuild_into : Ptr → Store → CrcMaps → Buffer → Store × CrcMaps × Buffer
unfolding rebuild_loop invalidate_crc
rebuild_into nb st maps b =
    let (pos, st', maps') = rebuild_loop 0 b.buffers nb st maps in
    let buffers = if nb.len == 0 then [] else nb ∷ [] in
    (
      st',
      invalidate_crc buffers maps',
      record b {
        buffers = buffers;
        memcopy_count = add32 b.memcopy_count pos;
        last_p = begin buffers;
      },
    )

-- `rebuild()`; whether the memory is aligned to a page does not matter here.
unfoldable pub rebuild : Store → CrcMaps → Buffer → Store × CrcMaps × Buffer
unfolding create rebuild_into
rebuild st maps b =
    if b.len == 0
    then (st, maps, record b { buffers = [] })
    else let (st', nb) = create b.len st in rebuild_into nb st' maps b

-- `c_str()`, whose result is the bytes of the first piece: none for an empty list.
unfoldable pub c_str : Store → CrcMaps → Buffer → Store × CrcMaps × Buffer
unfolding rebuild
c_str st maps b = elim b.buffers [
  | [] ↦ (st, maps, b)
  | _ ∷ ps ↦ if is_empty ps then (st, maps, b) else rebuild st maps b
]
