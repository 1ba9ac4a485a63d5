-- ===== src/Vga/Calls.antt =====
-- usr/drivers/vga.c: the calls of the driver that change its state, and the states they lead to.
use unics.Base.{ℕ, ◌≡◌, Option, some, List, Bytes}
use unics.Base.Int.{ℤ}
use unics.Vga.Screen.{
  Vga, Cells, Attr, start, clear, initialize, shutdown, set_color, set_color_attr, enable_cursor,
  disable_cursor, update_cursor, move_cursor, swap_buffers, set_buffer, init_double_buffer,
}
use unics.Vga.Text.{Arg, putchar, puts, putdec, puthex, printf}
use unics.Vga.Areas.{
  fill_area, clear_area, draw_box, putchar_at, puts_at, save_screen, restore_screen,
}
use unics.Vga.Lines.{scroll_up, scroll_down, delete_line, insert_line}

-- One call, from a state to the next.
pub data Call : Vga → Vga → Type 0 where
  initialize_screen : (s : Vga) → Call s (initialize s)
  shut_down : (s : Vga) → Call s (shutdown s)
  clear_screen : (s : Vga) → Call s (clear s)
  clear_cells : (s : Vga) (x y w h : ℤ) → Call s (clear_area x y w h s)
  put_character : (s : Vga) (c : ℕ) → Call s (putchar c s)
  put_decimal : (s : Vga) (value digits : ℕ) → Call s (putdec value digits s)
  put_hex : (s : Vga) (num : ℕ) → Call s (puthex num s)
  put_string : (s : Vga) (str : Bytes) → Call s (puts str s)
  print :
      (s t : Vga) (format : Option Bytes) (args : List Arg) (count : ℤ)
      → printf format args s ≡ some (count, t)
      → Call s t
  show_cursor : (s : Vga) → Call s (enable_cursor s)
  hide_cursor : (s : Vga) → Call s (disable_cursor s)
  update_position : (s : Vga) (x y : ℤ) → Call s (update_cursor x y s)
  move_position : (s : Vga) (x y : ℤ) → Call s (move_cursor x y s)
  choose_color : (s : Vga) (fg bg : ℕ) → Call s (set_color fg bg s)
  choose_color_attr : (s : Vga) (fg bg : ℕ) (attr : Attr) → Call s (set_color_attr fg bg attr s)
  swap_screens : (s : Vga) → Call s (swap_buffers s)
  choose_buffer : (s : Vga) (buffer : Option ℕ) → Call s (set_buffer buffer s)
  double_buffer : (s : Vga) → Call s (init_double_buffer s)
  put_character_at : (s : Vga) (c : ℕ) (x y : ℤ) → Call s (putchar_at c x y s)
  put_string_at : (s : Vga) (str : Option Bytes) (x y : ℤ) → Call s (puts_at str x y s)
  fill_cells : (s : Vga) (x y w h : ℤ) (c color : ℕ) → Call s (fill_area x y w h c color s)
  frame : (s : Vga) (x y w h : ℤ) (color : ℕ) → Call s (draw_box x y w h color s)
  save : (s : Vga) (buffer : Option ℕ) → Call s (save_screen buffer s)
  restore : (s : Vga) (buffer : Option ℕ) → Call s (restore_screen buffer s)
  scroll_screen_up : (s : Vga) (lines : ℤ) → Call s (scroll_up lines s)
  scroll_screen_down : (s : Vga) (lines : ℤ) → Call s (scroll_down lines s)
  remove_line : (s : Vga) (y : ℤ) → Call s (delete_line y s)
  add_line : (s : Vga) (y : ℤ) → Call s (insert_line y s)

-- The states that any number of calls leads to from the start of the program.
pub data Reach (buffers : ℕ → Cells) : Vga → Type 0 where
  at_start : Reach buffers (start buffers)
  after : (s t : Vga) → Reach buffers s → Call s t → Reach buffers t
