-- ===== src/Writer/Tests.antt =====
-- Concrete batches of src/writer.rs, and its theorem at a concrete input.
use afeye.Prelude.{◌≡◌, refl, some, none, [], ◌∷◌, ◌++◌, Bytes, codes, done, Returns}
use afeye.Writer.{skip_while, skip_ws, string_end, nest_loop, scan_val, arr_loop, scan_arr}
use afeye.Writer.Batch.{InText, scan_arr_total}

abbrev batch : Bytes
batch = codes " [12, [1,{}], " ++ (34 ∷ b'a' ∷ 92 ∷ 34 ∷ 34 ∷ codes ",null]")

scan_arr-batch :
    scan_arr batch
    ≡ done (
        some (
          record { tag = 1; a = 2; b = 4 }
          ∷ record { tag = 2; a = 6; b = 12 }
          ∷ record { tag = 0; a = 14; b = 19 }
          ∷ record { tag = 4; a = 20; b = 24 }
          ∷ []))
unfolding scan_arr arr_loop scan_val nest_loop string_end skip_ws skip_while
scan_arr-batch = refl

scan_arr-trailing : scan_arr (codes "[1,]") ≡ done none
unfolding scan_arr arr_loop scan_val nest_loop string_end skip_ws skip_while
scan_arr-trailing = refl

scan_arr_total_example : Returns (InText batch) (scan_arr batch)
scan_arr_total_example = scan_arr_total batch
