-- ===== src/Vga/Areas.antt =====
-- usr/drivers/vga.c: clearing, filling and framing areas, text at a position, and copies of the
-- whole screen. Coordinates are C integers; the loops run over `width` columns and `height` rows, as
-- long as the sum of the two stays in the range of an integer.
use unics.Base.{
  ℕ, zero, suc, ◌+◌, ◌-◌, ◌*◌, Bool, true, ◌||◌, Option, none, some, [], ◌∷◌, Bytes, ltb, ◌==◌,
  if◌then◌else◌,
}
use unics.Base.Int.{ℤ, pos, negsuc}
use unics.Base.Table.{update}
use unics.Vga.Screen.{Vga, Cells, width, height, size, entry, bounds_check, set_cells}

-- `x + 1`
abbrev pub next : ℤ → ℤ
next (pos n) = pos (n + 1)
next (negsuc zero) = pos 0
next (negsuc (suc n)) = negsuc n

-- `x + n`
abbrev pub plus : ℤ → ℕ → ℤ
plus x zero = x
plus x (suc n) = plus (next x) n

-- `x < n`
abbrev pub below : ℤ → ℕ → Bool
below (pos x) n = ltb x n
below (negsuc x) n = true

-- How often a loop from `x` to `x + n` runs.
abbrev pub times : ℤ → ℕ
times (pos n) = n
times (negsuc n) = 0

-- `if (vga_bounds_check(x, y)) vga_buffer[y * VGA_WIDTH + x] = v`
unfoldable pub plot : ℤ → ℤ → ℕ → Cells → Cells
plot (pos x) (pos y) v cells =
    if bounds_check (pos x) (pos y) then update cells (y * width + x) v else cells
plot (pos x) (negsuc y) v cells = cells
plot (negsuc x) y v cells = cells

-- The inner loop, with `n` columns left.
unfoldable pub plot_columns : ℤ → ℕ → ℤ → ℕ → Cells → Cells
plot_columns x zero row v cells = cells
plot_columns x (suc n) row v cells =
    if below x width then plot_columns (next x) n row v (plot x row v cells) else cells

-- The outer loop, with `n` rows left.
unfoldable pub plot_rows : ℤ → ℤ → ℕ → ℕ → ℕ → Cells → Cells
plot_rows x row w zero v cells = cells
plot_rows x row w (suc n) v cells =
    if below row height then plot_rows x (next row) w n v (plot_columns x w row v cells) else cells

-- Apply a change of cells to the current buffer, if there is one.
abbrev pub on_target : (Cells → Cells) → Vga → Vga
on_target f s = elim s.target [ none ↦ s | some b ↦ set_cells b (f (s.buffers b)) s ]

-- `vga_fill_area`
unfoldable pub fill_area : ℤ → ℤ → ℤ → ℤ → ℕ → ℕ → Vga → Vga
fill_area x y w h c color s = on_target (plot_rows x y (times w) (times h) (entry c color)) s

-- `vga_clear_area`
unfoldable pub clear_area : ℤ → ℤ → ℤ → ℤ → Vga → Vga
clear_area x y w h s = on_target (plot_rows x y (times w) (times h) (entry 32 s.color)) s

-- The loop over the top and the bottom edge, at column `i` of `w` with `n` left.
unfoldable pub draw_edges : ℤ → ℤ → ℤ → ℕ → ℕ → ℕ → ℕ → Cells → Cells
draw_edges x top bottom w i zero color cells = cells
draw_edges x top bottom w i (suc n) color cells =
    let c = if (i == 0) || (i + 1 == w) then 43 else 45 in
    draw_edges (next x) top bottom w (i + 1) n color
      (plot x bottom (entry c color) (plot x top (entry c color) cells))

-- The loop over the left and the right edge, with `n` rows left.
unfoldable pub draw_sides : ℤ → ℤ → ℤ → ℕ → ℕ → Cells → Cells
draw_sides left right row zero color cells = cells
draw_sides left right row (suc n) color cells =
    draw_sides left right (next row) n color
      (plot right row (entry 124 color) (plot left row (entry 124 color) cells))

-- `vga_draw_box`
unfoldable pub draw_box : ℤ → ℤ → ℤ → ℤ → ℕ → Vga → Vga
draw_box x y w h color s =
    if ltb (times w) 2 || ltb (times h) 2
    then s
    else on_target
        (λ cells.
          draw_sides x (plus x (times w - 1)) (next y) (times h - 2) color
            (draw_edges x y (plus y (times h - 1)) (times w) 0 (times w) color cells))
        s

-- `vga_putchar_at`
abbrev pub putchar_at : ℕ → ℤ → ℤ → Vga → Vga
putchar_at c x y s = on_target (plot x y (entry c s.color)) s

-- The loop of `vga_puts_at`: the start of a line is at `left`.
unfoldable pub puts_from : Bytes → ℤ → ℤ → ℤ → ℕ → Cells → Cells
puts_from [] left x y color cells = cells
puts_from (c ∷ str) left x y color cells =
    if below y height
    then (if c == 10
        then puts_from str left left (next y) color cells
        else if bounds_check x y
        then puts_from str left (next x) y color (plot x y (entry c color) cells)
        else puts_from str left x y color cells)
    else cells

-- `vga_puts_at`
unfoldable pub puts_at : Option Bytes → ℤ → ℤ → Vga → Vga
puts_at none x y s = s
puts_at (some str) x y s = on_target (puts_from str x x y s.color) s

-- `memcpy` of a whole screen.
abbrev pub copy_screen : Cells → Cells → Cells
copy_screen src dst k = if ltb k size then src k else dst k

-- `vga_save_screen`, into the buffer of a caller.
unfoldable pub save_screen : Option ℕ → Vga → Vga
save_screen none s = s
save_screen (some to) s = elim s.target [
  | none ↦ s
  | some b ↦ set_cells to (copy_screen (s.buffers b) (s.buffers to)) s
]

-- `vga_restore_screen`
unfoldable pub restore_screen : Option ℕ → Vga → Vga
restore_screen none s = s
restore_screen (some from) s = on_target (copy_screen (s.buffers from)) s
