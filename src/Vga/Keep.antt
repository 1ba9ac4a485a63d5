-- ===== src/Vga/Keep.antt =====
-- usr/drivers/vga.c: the cursor stays on the screen, and no cell behind a screen is written: the parts
-- that all calls share.
use unics.Base.{
  ℕ, ◌+◌, ◌≤◌, ◌<◌, ◌≡◌, ◌∙◌, true, some, inl, inr, arith, ◌==◌, ==→eq, ltb, leb, ltb→lt, leb→lt,
  if_ind, option_ind, Bool-cases, Option-cases,
}
use unics.Base.Int.{ℤ, pos, negsuc}
use unics.Base.Table.{update, update_ne}
use unics.Vga.Screen.{
  Vga, Cells, width, height, size, entry, bounds_check, store, set_cells, fill_run, clear,
  scroll_by, update_cursor,
}
use unics.Vga.Scroll.{fill_run_lem, scrolled_lem}

-- Every cell behind the screen is as before.
abbrev pub Inside : Cells → Cells → Type 0
Inside old new = (k : ℕ) → size ≤ k → new k ≡ old k

-- The cursor stands in a line of the screen, left of the column `n`, and in every buffer the cells
-- behind the screen hold what they held at the start of the program.
pub record Within (margin : ℕ → Cells) (n : ℕ) (s : Vga) : Type 0 where
  pub row_below : s.row < height
  pub column_below : s.column < n
  pub inside : (b : ℕ) → Inside (margin b) (s.buffers b)

-- The cursor is on the screen.
abbrev pub IsValid : (ℕ → Cells) → Vga → Type 0
IsValid margin s = Within margin width s

pub bounds_sound : (x y : ℕ) → bounds_check (pos x) (pos y) ≡ true → (x < width) × (y < height)
bounds_sound x y h = elim (Bool-cases (ltb x width)) [
  | inl e ↦ (ltb→lt x width e, ltb→lt y height (rw e at h))
  | inr e ↦ absurd (cc (rw e at h))
]

module _ (margin : ℕ → Cells) where
  -- A buffer that changes inside the screen only.
  pub set_cells-Inside :
      (b : ℕ) (cells : Cells) (s : Vga)
      → ((c : ℕ) → Inside (margin c) (s.buffers c))
      → Inside (s.buffers b) cells
      → (c : ℕ) → Inside (margin c) ((set_cells b cells s).buffers c)
  set_cells-Inside b cells s old new c k h = elim (Bool-cases (b == c)) [
    | inl e ↦ rw e (new k h ∙ rw (==→eq b c e) (old c k h))
    | inr e ↦ rw e (old c k h)
  ]

  pub set_cells-Within :
      (b n : ℕ) (cells : Cells) (s : Vga)
      → Within margin n s
      → Inside (s.buffers b) cells
      → Within margin n (set_cells b cells s)
  set_cells-Within b n cells s v new = record {
    row_below = v.row_below;
    column_below = v.column_below;
    inside = set_cells-Inside b cells s v.inside new;
  }

  pub store-Within :
      (b n i c : ℕ) (s : Vga) → i < size → Within margin n s → Within margin n (store b i c s)
  store-Within b n i c s h v =
      set_cells-Within b n (update (s.buffers b) i c) s v
        (λ k above. update_ne (s.buffers b) i k c (λ e. omega arith))

  pub update_cursor-IsValid :
      (x y : ℤ) (s : Vga) → IsValid margin s → IsValid margin (update_cursor x y s)
  unfolding update_cursor
  update_cursor-IsValid (negsuc x) y s v = v
  update_cursor-IsValid (pos x) (negsuc y) s v = v
  update_cursor-IsValid (pos x) (pos y) s v =
      option_ind (λ t. IsValid margin t) s.target (λ e. v)
        (λ b e.
          if_ind (λ t. IsValid margin t) (bounds_check (pos x) (pos y))
            (λ h. record {
              row_below = (bounds_sound x y h).1;
              column_below = (bounds_sound x y h).0;
              inside = v.inside;
            })
            (λ h. v))

  -- Filling cells of the screen.
  pub fill_run-Inside :
      (i n c : ℕ) (cells : Cells) → i + n ≤ size → Inside cells (fill_run i n c cells)
  fill_run-Inside i n c cells h k above = fill_run_lem i n c cells k ∙ ground arith

  -- After `clear` the cursor is on the screen, wherever it was before, if there is a buffer.
  pub clear-IsValid : (n : ℕ) (s : Vga) → n ≤ width → Within margin n s → IsValid margin (clear s)
  unfolding clear
  clear-IsValid n s h v = elim (Option-cases s.target) [
    | inl e ↦ rw e (record {
      row_below = v.row_below;
      column_below = omega (arith, v.column_below);
      inside = v.inside;
    })
    | inr (b, e) ↦ rw e (
        update_cursor-IsValid (pos 0) (pos 0) _ (record {
          row_below = omega arith;
          column_below = omega arith;
          inside =
              set_cells-Inside b _ s v.inside
                (fill_run-Inside 0 size (entry 32 s.color) (s.buffers b) (omega arith));
        }))
  ]

  -- Scrolling, which may begin with the cursor below the last line.
  pub scroll_by-IsValid :
      (lines b : ℕ) (s : Vga)
      → s.target ≡ some b
      → s.row < height + lines
      → s.column < width
      → ((c : ℕ) → Inside (margin c) (s.buffers c))
      → IsValid margin (scroll_by lines s)
  unfolding clear
  scroll_by-IsValid lines b s e row column old = rw e (
      if_ind (λ t. IsValid margin t) (leb height lines)
        (λ h. update_cursor-IsValid (pos 0) (pos 0) _ (record {
          row_below = omega arith;
          column_below = omega arith;
          inside =
              set_cells-Inside b _ s old
                (fill_run-Inside 0 size (entry 32 s.color) (s.buffers b) (omega arith));
        }))
        (λ h.
          let kept = set_cells-Inside b _ s old (λ k above.
            scrolled_lem lines s.color (s.buffers b) k (leb→lt height lines h) ∙ ground arith) in
          if_ind (λ t. IsValid margin t) (leb lines s.row)
            (λ up. record {
              row_below = omega (arith, leb→lt height lines h);
              column_below = column;
              inside = kept;
            })
            (λ up. record { row_below = omega arith; column_below = omega arith; inside = kept })))
