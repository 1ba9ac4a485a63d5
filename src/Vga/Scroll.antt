-- ===== src/Vga/Scroll.antt =====
-- usr/drivers/vga.c: what the loops over cells leave, scrolling, and lines put in and taken out.
use unics.Base.{ℕ, zero, suc, ◌+◌, ◌-◌, ◌*◌, ◌<◌, ◌≡◌, ◌∙◌, arith, ltb, leb, if◌then◌else◌}
use unics.Base.Table.{update}
use unics.Vga.Screen.{Cells, width, height, size, entry, fill_run, fill_lines, move_cells, scrolled}
use unics.Vga.Lines.{scrolled_down, line_deleted, line_inserted}

-- `v` in the `n` cells from `i` on, and the old cells elsewhere.
abbrev pub filled : ℕ → ℕ → ℕ → Cells → Cells
filled i n v cells k = if leb i k then (if ltb k (i + n) then v else cells k) else cells k

pub fill_run_lem :
    (i n v : ℕ) (cells : Cells) (k : ℕ) → fill_run i n v cells k ≡ filled i n v cells k
unfolding fill_run
fill_run_lem i zero v cells k = ground arith
fill_run_lem i (suc n) v cells k = fill_run_lem (i + 1) n v (update cells i v) k ∙ ground arith

pub fill_lines_lem :
    (line n v : ℕ) (cells : Cells) (k : ℕ)
    → fill_lines line n v cells k ≡ filled (line * width) (n * width) v cells k
unfolding fill_lines
fill_lines_lem line zero v cells k = ground arith
fill_lines_lem line (suc n) v cells k =
    fill_lines_lem (line + 1) n v (fill_run (line * width) width v cells) k
    ∙ rw (fill_run_lem (line * width) width v cells k) (ground arith)

-- Scrolling up by fewer lines than the screen has puts each line `lines` higher and blanks the lines
-- at the bottom; no cell behind the screen changes.
pub scrolled_lem :
    (lines color : ℕ) (cells : Cells) (k : ℕ)
    → lines < height
    → scrolled lines color cells k ≡ (
        if ltb k (width * (height - lines))
        then cells (k + width * lines)
        else if ltb k size
        then entry 32 color
        else cells k)
scrolled_lem lines color cells k h =
    fill_lines_lem (height - lines) lines (entry 32 color)
      (move_cells 0 (width * lines) (width * (height - lines)) cells) k
    ∙ ground arith

-- Scrolling down by fewer lines than the screen has puts each line `lines` lower and blanks the lines
-- at the top; no cell behind the screen changes.
pub scrolled_down_lem :
    (lines color : ℕ) (cells : Cells) (k : ℕ)
    → lines < height
    → scrolled_down lines color cells k ≡ (
        if ltb k (width * lines)
        then entry 32 color
        else if ltb k size
        then cells (k - width * lines)
        else cells k)
scrolled_down_lem lines color cells k h =
    fill_lines_lem 0 lines (entry 32 color)
      (move_cells (width * lines) 0 (width * (height - lines)) cells) k
    ∙ ground arith

-- The cells above line `y` stay, the lines below move up, the last one is blank.
pub line_deleted_lem :
    (y color : ℕ) (cells : Cells) (k : ℕ)
    → y < height
    → line_deleted y color cells k ≡ (
        if ltb k (y * width)
        then cells k
        else if ltb k ((height - 1) * width)
        then cells (k + width)
        else if ltb k size
        then entry 32 color
        else cells k)
unfolding line_deleted
line_deleted_lem y color cells k h =
    fill_run_lem ((height - 1) * width) width (entry 32 color) _ k ∙ ground arith

-- The cells above line `y` stay, line `y` is blank, the lines from `y` on move down.
pub line_inserted_lem :
    (y color : ℕ) (cells : Cells) (k : ℕ)
    → y < height
    → line_inserted y color cells k ≡ (
        if ltb k (y * width)
        then cells k
        else if ltb k ((y + 1) * width)
        then entry 32 color
        else if ltb k size
        then cells (k - width)
        else cells k)
unfolding line_inserted
line_inserted_lem y color cells k h =
    fill_run_lem (y * width) width (entry 32 color) _ k ∙ ground arith

-- Taking a line out just after it was put in gives the old screen back but for the last line, which
-- is blank.
pub line_deleted-line_inserted :
    (y color : ℕ) (cells : Cells) (k : ℕ)
    → y < height
    → line_deleted y color (line_inserted y color cells) k ≡ (
        if leb ((height - 1) * width) k
        then (if ltb k size then entry 32 color else cells k)
        else cells k)
line_deleted-line_inserted y color cells k h =
    let low = line_inserted_lem y color cells k h in
    let high = line_inserted_lem y color cells (k + width) h in
    line_deleted_lem y color (line_inserted y color cells) k h ∙ rw (low, high) (ground arith)
