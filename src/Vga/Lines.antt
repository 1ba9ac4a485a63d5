-- ===== src/Vga/Lines.antt =====
-- usr/drivers/vga.c: scrolling by the caller, and operations on lines.
use unics.Base.{ℕ, zero, suc, ◌+◌, ◌-◌, ◌*◌, none, some, ltb, leb, ◌==◌, if◌then◌else◌}
use Prim.Native.Nat.{bit_and}
use unics.Base.Int.{ℤ, pos, negsuc}
use unics.Vga.Screen.{
  Vga, Cells, width, height, entry, set_cells, fill_run, fill_lines, move_cells, clear,
  scroll_internal, update_cursor,
}
use unics.Vga.Areas.{on_target}

-- `vga_scroll_up`
unfoldable pub scroll_up : ℤ → Vga → Vga
scroll_up lines s = let t = scroll_internal lines s in update_cursor (pos t.column) (pos t.row) t

-- The cells after `vga_scroll_down`.
abbrev pub scrolled_down : ℕ → ℕ → Cells → Cells
scrolled_down lines color cells =
    fill_lines 0 lines (entry 32 color)
      (move_cells (width * lines) 0 (width * (height - lines)) cells)

-- The last part of `vga_scroll_down`.
abbrev pub cursor_down : ℕ → Vga → Vga
cursor_down lines s =
    let row = if ltb (s.row + lines) height then s.row + lines else height - 1 in
    update_cursor (pos s.column) (pos row) (record s { row = row })

abbrev pub scroll_down_by : ℕ → Vga → Vga
scroll_down_by lines s = elim s.target [
  | none ↦ s
  | some b ↦
      if leb height lines
      then clear s
      else cursor_down lines (set_cells b (scrolled_down lines s.color (s.buffers b)) s)
]

-- `vga_scroll_down`
unfoldable pub scroll_down : ℤ → Vga → Vga
scroll_down (pos zero) s = s
scroll_down (pos (suc n)) s = scroll_down_by (suc n) s
scroll_down (negsuc n) s = s

-- The loop of `vga_get_line_length`.
unfoldable pub trim : ℕ → ℕ → Cells → ℕ
trim y zero cells = 0
trim y (suc n) cells = if bit_and (cells (y * width + n)) 255 == 32 then trim y n cells else suc n

-- `vga_get_line_length`
unfoldable pub get_line_length : ℤ → Vga → ℕ
get_line_length (negsuc y) s = 0
get_line_length (pos y) s = elim s.target [
  | none ↦ 0
  | some b ↦ if leb height y then 0 else trim y width (s.buffers b)
]

-- The cells after `vga_delete_line`.
unfoldable pub line_deleted : ℕ → ℕ → Cells → Cells
line_deleted y color cells =
    let moved =
      if ltb y (height - 1)
      then move_cells (y * width) ((y + 1) * width) (width * (height - y - 1)) cells
      else cells in
    fill_run ((height - 1) * width) width (entry 32 color) moved

-- `vga_delete_line`
unfoldable pub delete_line : ℤ → Vga → Vga
delete_line (negsuc y) s = s
delete_line (pos y) s = if leb height y then s else on_target (line_deleted y s.color) s

-- The cells after `vga_insert_line`.
unfoldable pub line_inserted : ℕ → ℕ → Cells → Cells
line_inserted y color cells =
    let moved =
      if ltb y (height - 1)
      then move_cells ((y + 1) * width) (y * width) (width * (height - y - 1)) cells
      else cells in
    fill_run (y * width) width (entry 32 color) moved

-- `vga_insert_line`
unfoldable pub insert_line : ℤ → Vga → Vga
insert_line (negsuc y) s = s
insert_line (pos y) s = if leb height y then s else on_target (line_inserted y s.color) s
