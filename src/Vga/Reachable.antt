-- ===== src/Vga/Reachable.antt =====
-- usr/drivers/vga.c: every state that calls of the driver lead to.
use unics.Base.{ℕ, ◌<◌, ◌≡◌, refl, ap, ◌∙◌, Option, none, some, arith}
use unics.Vga.Screen.{Vga, Cells, width, height, initialize, set_buffer, init_double_buffer, clear}
use unics.Vga.Keep.{Inside, IsValid, update_cursor-IsValid, clear-IsValid}
use unics.Vga.Writing.{putchar-IsValid, puts-IsValid, printf-IsValid}
use unics.Vga.Drawing.{
  plot-IsValid, fill_area-IsValid, clear_area-IsValid, draw_box-IsValid, puts_at-IsValid,
  save_screen-IsValid, restore_screen-IsValid, swap_buffers-IsValid, move_cursor-IsValid,
  delete_line-IsValid, insert_line-IsValid, scroll_up-IsValid, scroll_down-IsValid,
}
use unics.Vga.Calls.{Call, Reach}

module _ (margin : ℕ → Cells) where
  -- Clearing a buffer that a call has just chosen.
  clear_new-IsValid :
      (s t : Vga)
      → IsValid margin s
      → t.row < height
      → t.column < width
      → t.buffers ≡ s.buffers
      → IsValid margin (clear t)
  clear_new-IsValid s t v row column e = clear-IsValid margin width t (omega arith) (record {
    row_below = row;
    column_below = column;
    inside = λ b k h. ap (λ (bs : ℕ → Cells). bs b k) e ∙ v.inside b k h;
  })

  initialize-IsValid : (s : Vga) → IsValid margin s → IsValid margin (initialize s)
  unfolding initialize
  initialize-IsValid s v =
      let c = clear_new-IsValid s _ v (omega arith) (omega arith) refl in
      record { row_below = c.row_below; column_below = c.column_below; inside = c.inside }

  init_double_buffer-IsValid : (s : Vga) → IsValid margin s → IsValid margin (init_double_buffer s)
  unfolding init_double_buffer
  init_double_buffer-IsValid s v = clear_new-IsValid s _ v v.row_below v.column_below refl

  set_buffer-IsValid :
      (buffer : Option ℕ) (s : Vga) → IsValid margin s → IsValid margin (set_buffer buffer s)
  set_buffer-IsValid none s v = v
  set_buffer-IsValid (some b) s v = record {
    row_below = v.row_below;
    column_below = v.column_below;
    inside = v.inside;
  }

  -- A call that changes neither the cursor nor the buffers.
  same-IsValid :
      (s t : Vga)
      → IsValid margin s
      → t.row ≡ s.row
      → t.column ≡ s.column
      → t.buffers ≡ s.buffers
      → IsValid margin t
  same-IsValid s t v row column e = record {
    row_below = omega (arith, v.row_below);
    column_below = omega (arith, v.column_below);
    inside = λ b k h. ap (λ (bs : ℕ → Cells). bs b k) e ∙ v.inside b k h;
  }

  call-IsValid : (s t : Vga) → Call s t → IsValid margin s → IsValid margin t
  call-IsValid _ _ (Call.initialize_screen s) v = initialize-IsValid s v
  call-IsValid _ _ (Call.shut_down s) v = same-IsValid s _ v refl refl refl
  call-IsValid _ _ (Call.clear_screen s) v = clear-IsValid margin width s (omega arith) v
  call-IsValid _ _ (Call.clear_cells s x y w h) v = clear_area-IsValid margin x y w h s v
  call-IsValid _ _ (Call.put_character s c) v = putchar-IsValid margin c s v
  call-IsValid _ _ (Call.put_decimal s value digits) v = puts-IsValid margin _ s v
  call-IsValid _ _ (Call.put_hex s num) v = puts-IsValid margin _ s v
  call-IsValid _ _ (Call.put_string s str) v = puts-IsValid margin str s v
  call-IsValid _ _ (Call.print s t format args count e) v =
      printf-IsValid margin format args s t count v e
  call-IsValid _ _ (Call.show_cursor s) v = same-IsValid s _ v refl refl refl
  call-IsValid _ _ (Call.hide_cursor s) v = same-IsValid s _ v refl refl refl
  call-IsValid _ _ (Call.update_position s x y) v = update_cursor-IsValid margin x y s v
  call-IsValid _ _ (Call.move_position s x y) v = move_cursor-IsValid margin x y s v
  call-IsValid _ _ (Call.choose_color s fg bg) v = same-IsValid s _ v refl refl refl
  call-IsValid _ _ (Call.choose_color_attr s fg bg attr) v = same-IsValid s _ v refl refl refl
  call-IsValid _ _ (Call.swap_screens s) v = swap_buffers-IsValid margin s v
  call-IsValid _ _ (Call.choose_buffer s buffer) v = set_buffer-IsValid buffer s v
  call-IsValid _ _ (Call.double_buffer s) v = init_double_buffer-IsValid s v
  call-IsValid _ _ (Call.put_character_at s c x y) v = plot-IsValid margin x y _ s v
  call-IsValid _ _ (Call.put_string_at s str x y) v = puts_at-IsValid margin str x y s v
  call-IsValid _ _ (Call.fill_cells s x y w h c color) v =
      fill_area-IsValid margin x y w h c color s v
  call-IsValid _ _ (Call.frame s x y w h color) v = draw_box-IsValid margin x y w h color s v
  call-IsValid _ _ (Call.save s buffer) v = save_screen-IsValid margin buffer s v
  call-IsValid _ _ (Call.restore s buffer) v = restore_screen-IsValid margin buffer s v
  call-IsValid _ _ (Call.scroll_screen_up s lines) v = scroll_up-IsValid margin lines s v
  call-IsValid _ _ (Call.scroll_screen_down s lines) v = scroll_down-IsValid margin lines s v
  call-IsValid _ _ (Call.remove_line s y) v = delete_line-IsValid margin y s v
  call-IsValid _ _ (Call.add_line s y) v = insert_line-IsValid margin y s v

-- However many calls of the driver are made, with whatever arguments, the cursor stays on the screen,
-- and in every buffer the cells behind the screen are never written.
pub Reach-Within :
    (buffers : ℕ → Cells) (s : Vga)
    → Reach buffers s
    → (s.row < height) × (s.column < width) × ((b : ℕ) → Inside (buffers b) (s.buffers b))
Reach-Within buffers s r = let v = valid s r in (v.row_below, v.column_below, v.inside)
  where
    valid : (s : Vga) → Reach buffers s → IsValid buffers s
    valid _ Reach.at_start = record {
      row_below = omega arith;
      column_below = omega arith;
      inside = λ b k h. refl;
    }
    valid _ (Reach.after s' s r c) = call-IsValid buffers s' s c (valid s' r)
