-- ===== src/Collect/Tests.antt =====
-- Concrete runs of the collector of src/collect.rs, and its theorems at concrete inputs.
use afeye.Prelude.{
  ℕ, zero, suc, get_or, ◌<◌, ◌≡◌, refl, true, some, none, [], ◌∷◌, ◌++◌, Bytes, length, codes, done,
  Returns, arith,
}
use afeye.Bctrace.Read.{to_le}
use afeye.Collect.{Frame, Scan, scan_frames, per_get, per_count}
use afeye.Collect.Accounts.{Scanned, scan_frames_total}
use afeye.Collect.Accounts.Counters.{IsAccounted, behind_zero}
use afeye.Collect.Frames.{IsFrame, put_frame, put_frames, deliver_all, scan_frames-put_frames}
use afeye.Collect.Resync.{scan_frames-cut}
use afeye.Collect.Names.{
  parse_per_key, per_name, batched, is_batched_name, str_eq, layer_of, split_once,
}
use afeye.Collect.Names.Keys.{parse_per_key-per_name}
use afeye.Collect.Parts.{Files, PartWriter, contents, put_file_name, repeat, push}
use afeye.Collect.Parts.Push.{IsInStep, Pushed, push-Pushed, push-failed}

abbrev zeros : Bytes
zeros = 0 ∷ 0 ∷ 0 ∷ 0 ∷ []

abbrev timer : Frame
timer = record {
  layer_id = 1;
  kind = 12;
  flags = 0;
  sid = 7;
  tid = 3;
  ts = 1000;
  payload = codes "hi";
}

abbrev hello : Frame
hello = record { layer_id = 1; kind = 0; flags = 1; sid = 0; tid = 0; ts = 900; payload = [] }

abbrev start : Scan
start = record {
  seq = 0;
  hellos = 0 ∷ 0 ∷ 0 ∷ [];
  stats = record {
    records = 0;
    bytes = 0;
    truncated = 0;
    corrupt = 0;
    first_ts = 0;
    last_ts = 0;
    per = [];
  };
  frames = [];
}

no_hellos : (l : ℕ) → l < 3 → get_or start.hellos l 0 ≡ 0
no_hellos zero h = refl
no_hellos (suc zero) h = refl
no_hellos (suc (suc zero)) h = refl
no_hellos (suc (suc (suc l))) h = absurd (omega arith)

start-IsAccounted : IsAccounted start
unfolding per_count per_get behind_zero
start-IsAccounted = record {
  records = refl;
  seq = refl;
  bytes = refl;
  truncated = refl;
  per = λ l k. refl;
  layers = refl;
  hellos = no_hellos;
  first_ts = refl;
  last_ts = refl;
}

abbrev noise : Bytes
noise = 255 ∷ 255 ∷ put_frame zeros timer (9 ∷ [])

scan_frames_total_example : Returns (Scanned noise 1 start) (scan_frames noise 1 start)
scan_frames_total_example = scan_frames_total noise 1 start start-IsAccounted

timer-IsFrame : IsFrame 1 zeros timer
timer-IsFrame = record {
  layer = refl;
  reserved_4 = refl;
  kind = omega arith;
  flags = omega arith;
  sid = omega arith;
  tid = omega arith;
  ts = omega arith;
  payload = omega arith;
}

hello-IsFrame : IsFrame 1 zeros hello
hello-IsFrame = record {
  layer = refl;
  reserved_4 = refl;
  kind = omega arith;
  flags = omega arith;
  sid = omega arith;
  tid = omega arith;
  ts = omega arith;
  payload = omega arith;
}

scan_frames-put_frames_example :
    scan_frames (put_frames zeros (hello ∷ timer ∷ []) (26 ∷ 0 ∷ [])) 1 start
    ≡ done (26 ∷ 0 ∷ [], deliver_all (hello ∷ timer ∷ []) start)
scan_frames-put_frames_example =
    scan_frames-put_frames zeros 1 (hello ∷ timer ∷ []) (26 ∷ 0 ∷ []) start
      (hello-IsFrame, (timer-IsFrame, tt)) (omega arith)

-- 100 bytes are announced, and 50 are there, the last 26 of them a whole record.
abbrev cut_tail : Bytes
cut_tail = 0 ∷ 0 ∷ 0 ∷ 0 ∷ 0 ∷ 0 ∷ zeros ++ (zeros ++ (zeros ++ put_frame zeros timer []))

abbrev cut : Bytes
cut = to_le 4 100 ++ (3 ∷ (0 ∷ cut_tail))

abbrev cut_head : Bytes
cut_head = to_le 4 100 ++ (3 ∷ 0 ∷ 0 ∷ 0 ∷ 0 ∷ 0 ∷ 0 ∷ 0 ∷ zeros ++ (zeros ++ zeros))

cut_split : cut ≡ cut_head ++ put_frame zeros timer []
unfolding to_le
cut_split = refl

cut_head-length : 24 ≡ length cut_head
unfolding to_le
cut_head-length = refl

cut_short : length cut < 100
unfolding to_le put_frame
cut_short = omega arith

scan_frames-cut_example : Returns (λ s. 0 < s.1.stats.corrupt) (scan_frames cut 1 start)
scan_frames-cut_example =
    scan_frames-cut zeros 1 cut 100 3 0 cut_tail refl (omega arith) (omega arith) (omega arith)
      cut_short 24 timer [] start timer-IsFrame (omega arith) (cut_head, cut_split, cut_head-length)

parse_per_key-per_name_example : parse_per_key (per_name 1 22) ≡ some (1, 1)
parse_per_key-per_name_example = parse_per_key-per_name 1 22 (omega arith) (omega arith)

layer_of_blink : layer_of (codes "blink-123") ≡ some (codes "blink", 1)
unfolding layer_of split_once
layer_of_blink = refl

batched_timer : batched 12 ≡ true
unfolding batched is_batched_name str_eq
batched_timer = refl

abbrev one : ℕ → Bytes
one n = codes "1"

abbrev part : PartWriter
part = record {
  file = codes "v8-timer-p0000.bin";
  rel = codes "raw/v8-timer-p0000.bin";
  seq = 0;
  written = 3;
}

abbrev directory : Files
directory = (codes "v8-timer-p0000.bin", codes "abc") ∷ []

part-IsInStep : IsInStep directory part (codes "abc")
unfolding contents
part-IsInStep = record { held = refl; written = refl }

put_file_name_padded :
    put_file_name one (codes "v8") (codes "timer") b'p' 1 4 ≡ done (codes "v8-timer-p0001.bin")
unfolding put_file_name repeat
put_file_name_padded = refl

no_next_part : contents (codes "v8-timer-p0001.bin") directory ≡ none
unfolding contents
no_next_part = refl

push-Pushed_example :
    Returns
      (Pushed one (codes "v8") (codes "timer") (codes "de"))
      (push one (codes "v8") (codes "timer") true none (codes "de") (directory, part))
push-Pushed_example =
    push-Pushed one (codes "v8") (codes "timer") (codes "de") (codes "v8-timer-p0001.bin")
      (codes "abc") directory part part-IsInStep put_file_name_padded no_next_part

push-failed_example :
    (files' : Files) × (files'' : Files) × (pw' : PartWriter) × (push one
        (codes "v8")
        (codes "timer")
        true
        (some 1)
        (codes "de")
        (directory, part)
      ≡ done ((files', part), none))
    × (push one (codes "v8") (codes "timer") true none (codes "fg") (files', part)
        ≡ done ((files'', pw'), some 3))
    × (contents pw'.file files'' ≡ some (codes "abcdfg"))
push-failed_example =
    push-failed one (codes "v8") (codes "timer") 1 (codes "de") (codes "fg") (codes "abc") directory
      part part-IsInStep (omega arith)
