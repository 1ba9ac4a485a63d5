-- ===== src/Vga/Writing.antt =====
-- usr/drivers/vga.c: text keeps the cursor on the screen and writes cells of the screen only.
use unics.Base.{
  ℕ, zero, suc, ◌+◌, ◌*◌, ◌≡◌, refl, ◌&&◌, Option, none, some, List, [], ◌∷◌, Bytes, arith, ◌==◌,
  ltb, leb, ltb→lt, leb→lt, if_ind, option_ind, subst, ◌∙◌,
}
use unics.Base.Int.{ℤ, pos, negsuc}
use unics.Vga.Screen.{Vga, Cells, width, height, entry, scroll_internal}
use unics.Vga.Text.{
  next_line, put_here, step_back, blanks, end_line, put, putchar, puts, Arg, print_int,
  print_string, with_arg, convert, printf_from, printf,
}
use unics.Vga.Keep.{Within, IsValid, store-Within, update_cursor-IsValid, scroll_by-IsValid}

module _ (margin : ℕ → Cells) where
  next_line-IsValid :
      (b n : ℕ) (s : Vga) → s.target ≡ some b → Within margin n s → IsValid margin (next_line s)
  unfolding next_line scroll_internal
  next_line-IsValid b n s e v =
      if_ind (λ t. IsValid margin t) (leb height (s.row + 1))
        (λ h.
          scroll_by-IsValid margin 1 b (record s { row = s.row + 1; column = 0 }) e
            (omega (arith, v.row_below)) (omega arith) v.inside)
        (λ h. record {
          row_below = leb→lt height (s.row + 1) h;
          column_below = omega arith;
          inside = v.inside;
        })

  end_line-IsValid :
      (b : ℕ) (s : Vga)
      → s.target ≡ some b
      → Within margin (width + 1) s
      → IsValid margin (end_line s)
  end_line-IsValid b s e v =
      if_ind (λ t. IsValid margin t) (leb width s.column) (λ h. next_line-IsValid b 81 s e v)
        (λ h. record {
          row_below = v.row_below;
          column_below = leb→lt width s.column h;
          inside = v.inside;
        })

  -- A character at the cursor, which then moves to the right, at most behind the line.
  put_here-Within : (b c : ℕ) (s : Vga) → IsValid margin s → IsValid margin (put_here b c s)
  put_here-Within b c s v =
      store-Within margin b width (s.row * width + s.column) (entry c s.color) s
        (omega (arith, v.row_below, v.column_below)) v

  move_right-Within :
      (b c : ℕ) (s : Vga)
      → IsValid margin s
      → Within margin (width + 1) (record (put_here b c s) { column = s.column + 1 })
  move_right-Within b c s v =
      let p = put_here-Within b c s v in
      record {
        row_below = p.row_below;
        column_below = omega (arith, v.column_below);
        inside = p.inside;
      }

  blanks-Within :
      (b k : ℕ) (s : Vga) → Within margin (width + 1) s → Within margin (width + 1) (blanks b k s)
  unfolding blanks
  blanks-Within b zero s v = v
  blanks-Within b (suc k) s v =
      if_ind (λ t. Within margin (width + 1) t) (ltb s.column width)
        (λ h. blanks-Within b k _ (
          move_right-Within b 32 s (record {
            row_below = v.row_below;
            column_below = ltb→lt s.column width h;
            inside = v.inside;
          })))
        (λ h. v)

  blanks-target : (b k : ℕ) (s : Vga) → (blanks b k s).target ≡ s.target
  unfolding blanks
  blanks-target b zero s = refl
  blanks-target b (suc k) s =
      if_ind (λ (t : Vga). t.target ≡ s.target) (ltb s.column width) (λ h. blanks-target b k _)
        (λ h. refl)

  step_back-IsValid : (s : Vga) → IsValid margin s → IsValid margin (step_back s)
  step_back-IsValid s v =
      if_ind (λ t. IsValid margin t) (ltb 0 s.column)
        (λ h. record {
          row_below = v.row_below;
          column_below = omega (arith, v.column_below);
          inside = v.inside;
        })
        (λ h.
          if_ind (λ t. IsValid margin t) (ltb 0 s.row)
            (λ up. record {
              row_below = omega (arith, v.row_below);
              column_below = omega arith;
              inside = v.inside;
            })
            (λ up. v))

  widen : (s : Vga) → IsValid margin s → Within margin (width + 1) s
  widen s v = record {
    row_below = v.row_below;
    column_below = omega (arith, v.column_below);
    inside = v.inside;
  }

  put-IsValid :
      (b c : ℕ) (s : Vga) → s.target ≡ some b → IsValid margin s → IsValid margin (put b c s)
  unfolding put
  put-IsValid b c s e v =
      if_ind P (c == 10) (λ h. next_line-IsValid b width s e v)
        (λ h.
          if_ind P (c == 13)
            (λ h. record { row_below = v.row_below; column_below = omega arith; inside = v.inside })
            (λ h.
              if_ind P (c == 8) (λ h. put_here-Within b 32 (step_back s) (step_back-IsValid s v))
                (λ h.
                  if_ind P (c == 9)
                    (λ h.
                      end_line-IsValid b _ (blanks-target b _ s ∙ e)
                        (blanks-Within b _ s (widen s v)))
                    (λ h.
                      if_ind P (leb 32 c && leb c 126)
                        (λ h. end_line-IsValid b _ e (move_right-Within b c s v)) (λ h. v)))))
    where
      P : Vga → Type 0
      P t = IsValid margin t

  pub putchar-IsValid : (c : ℕ) (s : Vga) → IsValid margin s → IsValid margin (putchar c s)
  unfolding putchar
  putchar-IsValid c s v =
      option_ind (λ t. IsValid margin t) s.target (λ e. v)
        (λ b e. update_cursor-IsValid margin _ _ (put b c s) (put-IsValid b c s e v))

  pub puts-IsValid : (str : Bytes) (s : Vga) → IsValid margin s → IsValid margin (puts str s)
  unfolding puts
  puts-IsValid [] s v = v
  puts-IsValid (c ∷ str) s v = puts-IsValid str (putchar c s) (putchar-IsValid c s v)

  -- What a conversion leaves, if its arguments are there.
  abbrev Converted : Option ((ℕ × Vga) × List Arg) → Type 0
  Converted none = Unit
  Converted (some r) = IsValid margin r.0.1

  with_arg-Converted :
      {A : Type 0} (o : Option (A × List Arg)) (print : A → ℕ × Vga)
      → ((v : A) → IsValid margin (print v).1)
      → Converted (with_arg o print)
  with_arg-Converted none print h = record {}
  with_arg-Converted (some (v, rest)) print h = h v

  print_int-IsValid : (v : ℤ) (s : Vga) → IsValid margin s → IsValid margin (print_int v s).1
  print_int-IsValid (pos n) s v = puts-IsValid _ s v
  print_int-IsValid (negsuc n) s v = puts-IsValid _ _ (putchar-IsValid 45 s v)

  print_string-IsValid :
      (str : Option Bytes) (s : Vga) → IsValid margin s → IsValid margin (print_string str s).1
  print_string-IsValid none s v = v
  print_string-IsValid (some str) s v = puts-IsValid str s v

  convert-Converted :
      (c : ℕ) (args : List Arg) (s : Vga) → IsValid margin s → Converted (convert c args s)
  unfolding convert
  convert-Converted c args s v =
      if_ind Converted (c == 100) (λ h. with_arg-Converted _ _ (λ n. print_int-IsValid n s v))
        (λ h.
          if_ind Converted (c == 120) (λ h. with_arg-Converted _ _ (λ n. puts-IsValid _ s v))
            (λ h.
              if_ind Converted (c == 115)
                (λ h. with_arg-Converted _ _ (λ str. print_string-IsValid str s v))
                (λ h.
                  if_ind Converted (c == 99)
                    (λ h. with_arg-Converted _ _ (λ n. putchar-IsValid _ s v))
                    (λ h.
                      if_ind Converted (c == 37) (λ h. putchar-IsValid 37 s v)
                        (λ h. putchar-IsValid c _ (putchar-IsValid 37 s v))))))

  -- What the loop of `vga_printf` leaves.
  abbrev Printed : {A : Type 0} → Option (A × Vga) → Type 0
  Printed none = Unit
  Printed (some r) = IsValid margin r.1

  Converted-Printed :
      (o : Option ((ℕ × Vga) × List Arg)) (go : (ℕ × Vga) × List Arg → Option (ℕ × Vga))
      → Converted o
      → ((r : (ℕ × Vga) × List Arg) → IsValid margin r.0.1 → Printed (go r))
      → Printed (elim o [ none ↦ none | some r ↦ go r ])
  Converted-Printed none go w h = record {}
  Converted-Printed (some r) go w h = h r w

  printf_from-Printed :
      (format : Bytes) (args : List Arg) (count : ℕ) (s : Vga)
      → IsValid margin s
      → Printed (printf_from format args count s)
  unfolding printf_from
  printf_from-Printed [] args count s v = v
  printf_from-Printed (c ∷ []) args count s v = putchar-IsValid c s v
  printf_from-Printed (c ∷ d ∷ format) args count s v =
      if_ind Printed (c == 37)
        (λ h.
          Converted-Printed (convert d args s) _ (convert-Converted d args s v)
            (λ r w. printf_from-Printed format r.1 (count + r.0.0) r.0.1 w))
        (λ h.
          printf_from-Printed (d ∷ format) args (count + 1) (putchar c s) (putchar-IsValid c s v))

  pub printf-IsValid :
      (format : Option Bytes) (args : List Arg) (s t : Vga) (count : ℤ)
      → IsValid margin s
      → printf format args s ≡ some (count, t)
      → IsValid margin t
  unfolding printf
  printf-IsValid format args s t count v e = subst Printed e (printed format)
    where
      result :
          (o : Option (ℕ × Vga))
          → Printed o
          → Printed (elim o [ none ↦ none | some r ↦ some (pos r.0, r.1) ])
      result none w = record {}
      result (some r) w = w

      printed : (f : Option Bytes) → Printed (printf f args s)
      printed none = v
      printed (some bytes) =
          result (printf_from bytes args 0 s) (printf_from-Printed bytes args 0 s v)
