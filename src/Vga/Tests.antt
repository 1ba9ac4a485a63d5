-- ===== src/Vga/Tests.antt =====
-- The screen after some text, and the line operations on a screen whose cells hold their index.
use unics.Base.{ℕ, ◌<◌, ◌≡◌, refl, [], ◌∷◌}
use unics.Base.Int.{pos}
use unics.Vga.Screen.{Vga, Cells, width, height, start, initialize}
use unics.Vga.Text.{puts, dec_bytes, low_digits, zero_pad}
use unics.Vga.Lines.{scroll_up}
use unics.Vga.Keep.{Inside}
use unics.Vga.Calls.{Call, Reach}
use unics.Vga.Reachable.{Reach-Within}

abbrev blank_buffers : ℕ → Cells
blank_buffers b k = 0

abbrev indices : Cells
indices k = k

abbrev ready : Vga
ready = initialize (start blank_buffers)

abbrev written : Vga
written = scroll_up (pos 1) (puts (104 ∷ 10 ∷ []) ready)

written_Reach : Reach blank_buffers written
written_Reach =
    Reach.after _ _
      (Reach.after _ _ (Reach.after _ _ Reach.at_start (Call.initialize_screen _))
        (Call.put_string ready (104 ∷ 10 ∷ [])))
      (Call.scroll_screen_up _ (pos 1))

Reach-Within_example :
    (written.row < height)
    × (written.column < width)
    × ((b : ℕ) → Inside (blank_buffers b) (written.buffers b))
Reach-Within_example = Reach-Within blank_buffers written written_Reach

-- `vga_putdec(907, 5)`
padded_number : dec_bytes 907 5 ≡ 48 ∷ 48 ∷ 57 ∷ 48 ∷ 55 ∷ []
unfolding dec_bytes low_digits zero_pad
padded_number = refl
