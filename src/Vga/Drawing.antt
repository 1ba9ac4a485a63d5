-- ===== src/Vga/Drawing.antt =====
-- usr/drivers/vga.c: areas, lines and copies of the screen write cells of the screen only.
use unics.Base.{
  ℕ, zero, suc, ◌+◌, ◌-◌, ◌*◌, ◌≡◌, refl, ◌∙◌, ◌||◌, Option, none, some, [], ◌∷◌, Bytes, arith,
  ◌==◌, ltb, leb, leb→lt, if_ind, option_ind, Option-cases, inl, inr,
}
use unics.Base.Int.{ℤ, pos, negsuc}
use unics.Base.Table.{update_ne}
use unics.Vga.Screen.{
  Vga, Cells, width, height, entry, bounds_check, scroll_internal, move_cursor, swap_buffers,
}
use unics.Vga.Areas.{
  next, plus, below, times, plot, plot_columns, plot_rows, on_target, fill_area, clear_area,
  draw_edges, draw_sides, draw_box, puts_from, puts_at, copy_screen, save_screen, restore_screen,
}
use unics.Vga.Lines.{scroll_up, scrolled_down, scroll_down, delete_line, insert_line}
use unics.Vga.Scroll.{scrolled_down_lem, line_deleted_lem, line_inserted_lem}
use unics.Vga.Keep.{
  Inside, IsValid, bounds_sound, set_cells-Within, update_cursor-IsValid, clear-IsValid,
  scroll_by-IsValid,
}

Inside-trans : (a b c : Cells) → Inside a b → Inside b c → Inside a c
Inside-trans a b c p q k h = q k h ∙ p k h

plot-Inside : (x y : ℤ) (v : ℕ) (cells : Cells) → Inside cells (plot x y v cells)
unfolding plot
plot-Inside (negsuc x) y v cells k h = refl
plot-Inside (pos x) (negsuc y) v cells k h = refl
plot-Inside (pos x) (pos y) v cells k h =
    if_ind (λ (c : Cells). c k ≡ cells k) (bounds_check (pos x) (pos y))
      (λ e.
        let (left, above) = bounds_sound x y e in
        update_ne cells (y * width + x) k v (λ q. omega arith))
      (λ e. refl)

plot_columns-Inside :
    (x : ℤ) (n : ℕ) (row : ℤ) (v : ℕ) (cells : Cells) → Inside cells (plot_columns x n row v cells)
unfolding plot_columns
plot_columns-Inside x zero row v cells k h = refl
plot_columns-Inside x (suc n) row v cells k h =
    if_ind (λ (c : Cells). c k ≡ cells k) (below x width)
      (λ e. plot_columns-Inside (next x) n row v _ k h ∙ plot-Inside x row v cells k h) (λ e. refl)

plot_rows-Inside :
    (x row : ℤ) (w n v : ℕ) (cells : Cells) → Inside cells (plot_rows x row w n v cells)
unfolding plot_rows
plot_rows-Inside x row w zero v cells k h = refl
plot_rows-Inside x row w (suc n) v cells k h =
    if_ind (λ (c : Cells). c k ≡ cells k) (below row height)
      (λ e. plot_rows-Inside x (next row) w n v _ k h ∙ plot_columns-Inside x w row v cells k h)
      (λ e. refl)

draw_edges-Inside :
    (x top bottom : ℤ) (w i n color : ℕ) (cells : Cells)
    → Inside cells (draw_edges x top bottom w i n color cells)
unfolding draw_edges
draw_edges-Inside x top bottom w i zero color cells k h = refl
draw_edges-Inside x top bottom w i (suc n) color cells k h =
    draw_edges-Inside (next x) top bottom w (i + 1) n color _ k h
    ∙ plot-Inside x bottom _ _ k h
    ∙ plot-Inside x top _ cells k h

draw_sides-Inside :
    (left right row : ℤ) (n color : ℕ) (cells : Cells)
    → Inside cells (draw_sides left right row n color cells)
unfolding draw_sides
draw_sides-Inside left right row zero color cells k h = refl
draw_sides-Inside left right row (suc n) color cells k h =
    draw_sides-Inside left right (next row) n color _ k h
    ∙ plot-Inside right row _ _ k h
    ∙ plot-Inside left row _ cells k h

puts_from-Inside :
    (str : Bytes) (left x y : ℤ) (color : ℕ) (cells : Cells)
    → Inside cells (puts_from str left x y color cells)
unfolding puts_from
puts_from-Inside [] left x y color cells k h = refl
puts_from-Inside (c ∷ str) left x y color cells k h =
    if_ind P (below y height)
      (λ e.
        if_ind P (c == 10) (λ e. puts_from-Inside str left left (next y) color cells k h)
          (λ e.
            if_ind P (bounds_check x y)
              (λ e. puts_from-Inside str left (next x) y color _ k h ∙ plot-Inside x y _ cells k h)
              (λ e. puts_from-Inside str left x y color cells k h)))
      (λ e. refl)
  where
    P : Cells → Type 0
    P c = c k ≡ cells k

copy_screen-Inside : (src dst : Cells) → Inside dst (copy_screen src dst)
copy_screen-Inside src dst k h = ground arith

module _ (margin : ℕ → Cells) where
  on_target-IsValid :
      (f : Cells → Cells) (s : Vga)
      → ((cells : Cells) → Inside cells (f cells))
      → IsValid margin s
      → IsValid margin (on_target f s)
  on_target-IsValid f s h v =
      option_ind (λ t. IsValid margin t) s.target (λ e. v)
        (λ b e. set_cells-Within margin b width (f (s.buffers b)) s v (h (s.buffers b)))

  pub plot-IsValid :
      (x y : ℤ) (c : ℕ) (s : Vga) → IsValid margin s → IsValid margin (on_target (plot x y c) s)
  plot-IsValid x y c s v = on_target-IsValid (plot x y c) s (plot-Inside x y c) v

  pub fill_area-IsValid :
      (x y w h : ℤ) (c color : ℕ) (s : Vga)
      → IsValid margin s
      → IsValid margin (fill_area x y w h c color s)
  unfolding fill_area
  fill_area-IsValid x y w h c color s v =
      on_target-IsValid _ s (plot_rows-Inside x y (times w) (times h) (entry c color)) v

  pub clear_area-IsValid :
      (x y w h : ℤ) (s : Vga) → IsValid margin s → IsValid margin (clear_area x y w h s)
  unfolding clear_area
  clear_area-IsValid x y w h s v =
      on_target-IsValid _ s (plot_rows-Inside x y (times w) (times h) (entry 32 s.color)) v

  pub draw_box-IsValid :
      (x y w h : ℤ) (color : ℕ) (s : Vga)
      → IsValid margin s
      → IsValid margin (draw_box x y w h color s)
  unfolding draw_box
  draw_box-IsValid x y w h color s v =
      if_ind (λ t. IsValid margin t) (ltb (times w) 2 || ltb (times h) 2) (λ e. v)
        (λ e.
          on_target-IsValid _ s
            (λ cells.
              Inside-trans cells _ _
                (draw_edges-Inside x y (plus y (times h - 1)) (times w) 0 (times w) color cells)
                (draw_sides-Inside x (plus x (times w - 1)) (next y) (times h - 2) color _))
            v)

  pub puts_at-IsValid :
      (str : Option Bytes) (x y : ℤ) (s : Vga)
      → IsValid margin s
      → IsValid margin (puts_at str x y s)
  unfolding puts_at
  puts_at-IsValid none x y s v = v
  puts_at-IsValid (some str) x y s v = on_target-IsValid _ s (puts_from-Inside str x x y s.color) v

  pub save_screen-IsValid :
      (to : Option ℕ) (s : Vga) → IsValid margin s → IsValid margin (save_screen to s)
  unfolding save_screen
  save_screen-IsValid none s v = v
  save_screen-IsValid (some to) s v =
      option_ind (λ t. IsValid margin t) s.target (λ e. v)
        (λ b e.
          set_cells-Within margin to width _ s v (copy_screen-Inside (s.buffers b) (s.buffers to)))

  pub restore_screen-IsValid :
      (from : Option ℕ) (s : Vga) → IsValid margin s → IsValid margin (restore_screen from s)
  unfolding restore_screen
  restore_screen-IsValid none s v = v
  restore_screen-IsValid (some from) s v =
      on_target-IsValid _ s (copy_screen-Inside (s.buffers from)) v

  pub swap_buffers-IsValid : (s : Vga) → IsValid margin s → IsValid margin (swap_buffers s)
  unfolding swap_buffers
  swap_buffers-IsValid s v =
      set_cells-Within margin 0 width _ s v (copy_screen-Inside (s.buffers 1) (s.buffers 0))

  pub move_cursor-IsValid :
      (x y : ℤ) (s : Vga) → IsValid margin s → IsValid margin (move_cursor x y s)
  unfolding move_cursor
  move_cursor-IsValid (negsuc x) y s v = v
  move_cursor-IsValid (pos x) (negsuc y) s v = v
  move_cursor-IsValid (pos x) (pos y) s v =
      if_ind (λ t. IsValid margin t) (bounds_check (pos x) (pos y))
        (λ e. update_cursor-IsValid margin (pos x) (pos y) _ (record {
          row_below = (bounds_sound x y e).1;
          column_below = (bounds_sound x y e).0;
          inside = v.inside;
        }))
        (λ e. v)

  pub delete_line-IsValid : (y : ℤ) (s : Vga) → IsValid margin s → IsValid margin (delete_line y s)
  unfolding delete_line
  delete_line-IsValid (negsuc y) s v = v
  delete_line-IsValid (pos y) s v =
      if_ind (λ t. IsValid margin t) (leb height y) (λ e. v)
        (λ e.
          let below = leb→lt height y e in
          on_target-IsValid _ s
            (λ cells k h. line_deleted_lem y s.color cells k below ∙ ground arith) v)

  pub insert_line-IsValid : (y : ℤ) (s : Vga) → IsValid margin s → IsValid margin (insert_line y s)
  unfolding insert_line
  insert_line-IsValid (negsuc y) s v = v
  insert_line-IsValid (pos y) s v =
      if_ind (λ t. IsValid margin t) (leb height y) (λ e. v)
        (λ e.
          let below = leb→lt height y e in
          on_target-IsValid _ s
            (λ cells k h. line_inserted_lem y s.color cells k below ∙ ground arith) v)

  scroll_internal-IsValid :
      (lines : ℤ) (s : Vga) → IsValid margin s → IsValid margin (scroll_internal lines s)
  unfolding scroll_internal
  scroll_internal-IsValid (negsuc n) s v = v
  scroll_internal-IsValid (pos zero) s v = v
  scroll_internal-IsValid (pos (suc n)) s v = elim (Option-cases s.target) [
    | inl e ↦ option_ind (λ t. IsValid margin t) s.target (λ none. v) (λ b found. absurd (cc))
    | inr (b, e) ↦
        scroll_by-IsValid margin (suc n) b s e (omega (arith, v.row_below)) v.column_below v.inside
  ]

  pub scroll_up-IsValid :
      (lines : ℤ) (s : Vga) → IsValid margin s → IsValid margin (scroll_up lines s)
  unfolding scroll_up
  scroll_up-IsValid lines s v =
      update_cursor-IsValid margin _ _ _ (scroll_internal-IsValid lines s v)

  pub scroll_down-IsValid :
      (lines : ℤ) (s : Vga) → IsValid margin s → IsValid margin (scroll_down lines s)
  unfolding scroll_down
  scroll_down-IsValid (negsuc n) s v = v
  scroll_down-IsValid (pos zero) s v = v
  scroll_down-IsValid (pos (suc n)) s v =
      option_ind (λ t. IsValid margin t) s.target (λ e. v)
        (λ b e.
          if_ind (λ t. IsValid margin t) (leb height (suc n))
            (λ h. clear-IsValid margin width s (omega arith) v)
            (λ h.
              let w =
                set_cells-Within margin b width (scrolled_down (suc n) s.color (s.buffers b)) s v
                  (λ k above.
                    scrolled_down_lem (suc n) s.color (s.buffers b) k (leb→lt height (suc n) h)
                    ∙ ground arith) in
              update_cursor-IsValid margin _ _ _ (record {
                row_below = ground (arith, v.row_below);
                column_below = v.column_below;
                inside = w.inside;
              })))
