-- ===== src/Buffer/Place.antt =====
-- Where an iterator of a `buffer` stands, and that `append` does not move it.
use my_git_hub.Common.{
  ℕ, ◌+◌, ◌<◌, ◌≡◌, sym, ap, Option, none, some, List, ◌++◌, arith, length, take, drop,
  take-append-drop,
}
use my_git_hub.Common.Words.{u32_mod}
use my_git_hub.Buffer.Store.{Ptr}
use my_git_hub.Buffer.Bytes.{total}
use my_git_hub.Buffer.Defs.{Cursor}
use my_git_hub.Buffer.Cursor.{at_node}
use my_git_hub.Buffer.Grow.{Grows, Inside, Grows-node}
use my_git_hub.Buffer.Bytes.{total-append}

-- The node is one of the list, if it is not the end.
abbrev pub Real : Option ℕ → List Ptr → Type 0
Real none ps = Unit {0}
Real (some k) ps = k < length ps

-- The cursor is `off` bytes from the front: `pre` are the pieces before its node.
pub record Stands (ps : List Ptr) (c : Cursor) : Type 0 where
  pub pre : List Ptr
  pub joined : ps ≡ pre ++ at_node c.node ps
  pub offset : c.off ≡ total pre + c.p_off
  pub inside : Inside c.p_off (at_node c.node ps)
  pub real : Real c.node ps

-- The cursor that a buffer keeps: where it says, or at the end, from where the next copy seeks.
abbrev pub IsOkAt : List Ptr → Option ℕ → Cursor → Type 0
IsOkAt ps none c = c.off < u32_mod
IsOkAt ps (some k) c = Stands ps c

abbrev pub IsOk : List Ptr → Cursor → Type 0
IsOk ps c = IsOkAt ps c.node c

pub Grows-IsOk : (ps qs : List Ptr) (c : Cursor) → Grows ps qs → IsOk ps c → IsOk qs c
Grows-IsOk ps qs c g ok = grown c.off c.p_off c.node ok
  where
    grown :
        (off p_off : ℕ) (o : Option ℕ)
        → IsOkAt ps o (record { off = off; node = o; p_off = p_off })
        → IsOkAt qs o (record { off = off; node = o; p_off = p_off })
    grown off p_off none h = h
    grown off p_off (some k) h =
        let (front, real, inside) = Grows-node ps qs k p_off g h.real h.inside in
        record {
          pre = take k qs;
          joined = sym (take-append-drop k qs);
          offset = omega (
            arith,
            h.offset,
            ap total h.joined,
            total-append h.pre (drop k ps),
            ap total (take-append-drop k ps),
            total-append (take k ps) (drop k ps),
            ap total front,
          );
          inside = inside;
          real = real;
        }
