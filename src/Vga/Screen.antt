-- ===== src/Vga/Screen.antt =====
-- usr/drivers/vga.c and usr/include/vga.h: the state of the driver, the cursor, colours, clearing and
-- scrolling. A buffer is a function of its index: 0 names the video memory, 1 the double buffer, and
-- other numbers name buffers of callers. `outb` calls are a log, the latest first.
use unics.Base.{
  ℕ, zero, suc, ◌+◌, ◌-◌, ◌*◌, ◌/◌, ◌%◌, ◌^◌, Bool, true, false, ◌&&◌, Option, none, some, List, [],
  ◌∷◌, ltb, leb, if◌then◌else◌, bit_or,
}
use unics.Base.Int.{ℤ, pos, negsuc}
use unics.Base.Table.{update}

-- `VGA_WIDTH`, `VGA_HEIGHT` and their product
abbrev pub width : ℕ
width = 80

abbrev pub height : ℕ
height = 25

abbrev pub size : ℕ
size = 2000

abbrev pub Cells : Type 0
Cells = ℕ → ℕ

-- The static variables, with the buffers and the ports.
pub record Vga : Type 0 where
  pub row : ℕ
  pub column : ℕ
  pub color : ℕ
  pub target : Option ℕ
  pub initialized : Bool
  pub buffers : ℕ → Cells
  pub ports : List (ℕ × ℕ)

-- `vga_entry`
abbrev pub entry : ℕ → ℕ → ℕ
entry uc color = bit_or uc (color * 2 ^ 8)

-- `vga_entry_color`
abbrev pub entry_color : ℕ → ℕ → ℕ
entry_color fg bg = bit_or fg (bg * 2 ^ 4) % 2 ^ 8

-- `vga_attr_t`
pub record Attr : Type 0 where
  pub blink : Bool
  pub bright : Bool

-- `vga_entry_color_attr`
abbrev pub entry_color_attr : ℕ → ℕ → Attr → ℕ
entry_color_attr fg bg attr =
    let color = entry_color fg bg in
    let color = if attr.blink then bit_or color 128 else color in
    if attr.bright && ltb fg 8 then bit_or color 8 else color

-- `VGA_COLOR_DEFAULT`: light grey on black
abbrev pub color_default : ℕ
color_default = 7

-- `vga_bounds_check`
abbrev pub bounds_check : ℤ → ℤ → Bool
bounds_check (pos x) (pos y) = ltb x width && ltb y height
bounds_check (pos x) (negsuc y) = false
bounds_check (negsuc x) y = false

-- A store to `vga_buffer[i]`, where the target is the buffer `b`.
abbrev pub store : ℕ → ℕ → ℕ → Vga → Vga
store b i v s = record s { buffers = update s.buffers b (update (s.buffers b) i v) }

-- All of the buffer at once.
abbrev pub set_cells : ℕ → Cells → Vga → Vga
set_cells b cells s = record s { buffers = update s.buffers b cells }

-- A loop that stores `v` at `n` indices from `i` on.
unfoldable pub fill_run : ℕ → ℕ → ℕ → Cells → Cells
fill_run i zero v cells = cells
fill_run i (suc n) v cells = fill_run (i + 1) n v (update cells i v)

-- The loops that blank `n` lines from the line `line` on.
unfoldable pub fill_lines : ℕ → ℕ → ℕ → Cells → Cells
fill_lines line zero v cells = cells
fill_lines line (suc n) v cells = fill_lines (line + 1) n v (fill_run (line * width) width v cells)

-- `memmove` of `n` cells inside a buffer.
abbrev pub move_cells : ℕ → ℕ → ℕ → Cells → Cells
move_cells dst src n cells k =
    if leb dst k then (if ltb k (dst + n) then cells (src + (k - dst)) else cells k) else cells k

-- `outb`
abbrev pub outb : ℕ → ℕ → Vga → Vga
outb port value s = record s { ports = (port, value) ∷ s.ports }

-- The pair of port writes that sets a cursor register.
abbrev pub set_register : ℕ → ℕ → Vga → Vga
set_register register value s = outb 981 value (outb 980 register s)

-- `vga_update_cursor` inside the bounds.
abbrev pub place_cursor : ℕ → ℕ → Vga → Vga
place_cursor x y s =
    let at = (y * width + x) % 2 ^ 16 in
    set_register 14 (at / 2 ^ 8 % 2 ^ 8)
      (set_register 15 (at % 2 ^ 8) (record s { column = x; row = y }))

-- `vga_update_cursor`
unfoldable pub update_cursor : ℤ → ℤ → Vga → Vga
update_cursor (pos x) (pos y) s = elim s.target [
  | none ↦ s
  | some b ↦ if bounds_check (pos x) (pos y) then place_cursor x y s else s
]
update_cursor (pos x) (negsuc y) s = s
update_cursor (negsuc x) y s = s

-- `vga_clear`
unfoldable pub clear : Vga → Vga
clear s = elim s.target [
  | none ↦ s
  | some b ↦
      update_cursor (pos 0) (pos 0)
        (record (set_cells b (fill_run 0 size (entry 32 s.color) (s.buffers b)) s) {
          row = 0;
          column = 0;
        })
]

-- The last part of `vga_scroll_internal`.
abbrev pub cursor_up : ℕ → Vga → Vga
cursor_up lines s =
    if leb lines s.row then record s { row = s.row - lines } else record s { row = 0; column = 0 }

-- The cells after `vga_scroll_internal`.
abbrev pub scrolled : ℕ → ℕ → Cells → Cells
scrolled lines color cells =
    fill_lines (height - lines) lines (entry 32 color)
      (move_cells 0 (width * lines) (width * (height - lines)) cells)

-- `vga_scroll_internal` for a positive number of lines.
abbrev pub scroll_by : ℕ → Vga → Vga
scroll_by lines s = elim s.target [
  | none ↦ s
  | some b ↦
      if leb height lines
      then clear s
      else cursor_up lines (set_cells b (scrolled lines s.color (s.buffers b)) s)
]

-- `vga_scroll_internal`
unfoldable pub scroll_internal : ℤ → Vga → Vga
scroll_internal (pos zero) s = s
scroll_internal (pos (suc n)) s = scroll_by (suc n) s
scroll_internal (negsuc n) s = s

-- The state at the start of the program, with the contents of the buffers.
abbrev pub start : (ℕ → Cells) → Vga
start buffers = record {
  row = 0;
  column = 0;
  color = color_default;
  target = none;
  initialized = false;
  buffers = buffers;
  ports = [];
}

-- `vga_enable_cursor`
abbrev pub enable_cursor : Vga → Vga
enable_cursor s = set_register 11 15 (set_register 10 0 s)

-- `vga_disable_cursor`
abbrev pub disable_cursor : Vga → Vga
disable_cursor s = set_register 10 32 s

-- `vga_initialize`
unfoldable pub initialize : Vga → Vga
initialize s = enable_cursor (
    clear (record s {
      color = color_default;
      target = some 0;
      row = 0;
      column = 0;
      initialized = true;
    }))

-- `vga_shutdown`
abbrev pub shutdown : Vga → Vga
shutdown s = record (disable_cursor s) { initialized = false }

-- `vga_set_color`
abbrev pub set_color : ℕ → ℕ → Vga → Vga
set_color fg bg s = record s { color = entry_color fg bg }

-- `vga_set_color_attr`
abbrev pub set_color_attr : ℕ → ℕ → Attr → Vga → Vga
set_color_attr fg bg attr s = record s { color = entry_color_attr fg bg attr }

-- `vga_move_cursor`
unfoldable pub move_cursor : ℤ → ℤ → Vga → Vga
move_cursor (pos x) (pos y) s =
    if bounds_check (pos x) (pos y)
    then update_cursor (pos x) (pos y) (record s { column = x; row = y })
    else s
move_cursor (pos x) (negsuc y) s = s
move_cursor (negsuc x) y s = s

-- `vga_get_cursor`
abbrev pub get_cursor : Vga → ℤ × ℤ
get_cursor s = (pos s.column, pos s.row)

-- `vga_swap_buffers`
unfoldable pub swap_buffers : Vga → Vga
swap_buffers s = set_cells 0 (λ k. if ltb k size then s.buffers 1 k else s.buffers 0 k) s

-- `vga_set_buffer`
abbrev pub set_buffer : Option ℕ → Vga → Vga
set_buffer none s = s
set_buffer (some b) s = record s { target = some b }

-- `vga_init_double_buffer`
unfoldable pub init_double_buffer : Vga → Vga
init_double_buffer s = clear (record s { target = some 1 })
