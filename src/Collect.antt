-- ===== src/Collect.antt =====
-- The framing of src/collect.rs: the loop of `scan_once` over the bytes of one file that were
-- read and not yet consumed, with what it counts. Counters of 64 bits are natural numbers.
pub mod Accounts
pub mod Frames
pub mod Resync
pub mod Names
pub mod Parts
mod Tests
use afeye.Prelude.{
  ℕ, zero, suc, ◌+◌, ◌*◌, ◌-◌, ◌^◌, Bool, true, false, not, ◌&&◌, ◌||◌, List, [], ◌∷◌, ◌++◌, Bytes,
  length, get_or, set, Outcome, done, panic, stuck, ◌>>=◌, byte_at, slice, leb, ltb, ◌==◌,
  if◌then◌else◌, bit_and,
}
use afeye.Bctrace.Read.{rd_u16, rd_u32, rd_u64}

abbrev pub hdr : ℕ
hdr = 24

abbrev pub max_record : ℕ
max_record = 24 + 1048576

-- the last index of `KINDS`
abbrev pub max_kind : ℕ
max_kind = 40

abbrev pub kind_sink_hello : ℕ
kind_sink_hello = 0

pub record Frame : Type 0 where
  pub layer_id : ℕ
  pub kind : ℕ
  pub flags : ℕ
  pub sid : ℕ
  pub tid : ℕ
  pub ts : ℕ
  pub payload : Bytes

-- `BTreeMap<(u8, u8), u64>`, in no order
abbrev pub Per : Type 0
Per = List ((ℕ × ℕ) × ℕ)

abbrev pub pair_eq : ℕ × ℕ → ℕ × ℕ → Bool
pair_eq (a, b) (c, d) = a == c && b == d

-- `*stats.per.entry(key).or_insert(0) += 1`
unfoldable pub per_bump : ℕ × ℕ → Per → Per
per_bump key [] = (key, 1) ∷ []
per_bump key ((k, n) ∷ per) = if pair_eq k key then (k, n + 1) ∷ per else (k, n) ∷ per_bump key per

unfoldable pub per_get : ℕ × ℕ → Per → ℕ
per_get key [] = 0
per_get key ((k, n) ∷ per) = if pair_eq k key then n else per_get key per

pub record Stats : Type 0 where
  pub records : ℕ
  pub bytes : ℕ
  pub truncated : ℕ
  pub corrupt : ℕ
  pub first_ts : ℕ
  pub last_ts : ℕ
  pub per : Per

-- `Stats::per_count`
unfoldable pub per_count : Stats → ℕ → ℕ → ℕ
unfolding per_get
per_count stats layer kind = per_get (layer, kind) stats.per

-- The state that a round changes, with the records delivered so far.
pub record Scan : Type 0 where
  pub seq : ℕ
  pub hellos : List ℕ
  pub stats : Stats
  pub frames : List Frame

unfoldable pub is_truncated : Frame → Bool
is_truncated f = not (bit_and f.flags 1 == 0)

-- What a delivered record counts.
unfoldable pub count_record : Frame → Stats → Stats
unfolding per_bump is_truncated
count_record f s = record {
  records = s.records + 1;
  bytes = s.bytes + length f.payload;
  truncated = if is_truncated f then s.truncated + 1 else s.truncated;
  corrupt = s.corrupt;
  first_ts = if s.first_ts == 0 || ltb f.ts s.first_ts then f.ts else s.first_ts;
  last_ts = if ltb s.last_ts f.ts then f.ts else s.last_ts;
  per = per_bump (f.layer_id, f.kind) s.per;
}

unfoldable pub count_hello : Frame → List ℕ → List ℕ
count_hello f hellos =
    if f.kind == kind_sink_hello && ltb f.layer_id 3
    then set hellos f.layer_id (get_or hellos f.layer_id 0 + 1)
    else hellos

unfoldable pub deliver : Frame → Scan → Scan
unfolding count_record count_hello
deliver f st = record {
  seq = st.seq + 1;
  hellos = count_hello f st.hellos;
  stats = count_record f st.stats;
  frames = st.frames ++ (f ∷ []);
}

unfoldable pub count_corrupt : Scan → Scan
count_corrupt st =
    let s = st.stats in
    record {
      seq = st.seq;
      hellos = st.hellos;
      stats = record {
        records = s.records;
        bytes = s.bytes;
        truncated = s.truncated;
        corrupt = s.corrupt + 1;
        first_ts = s.first_ts;
        last_ts = s.last_ts;
        per = s.per;
      };
      frames = st.frames;
    }

unfoldable pub frame_of : ℕ → Bytes → Outcome Frame
frame_of layer_id rec = do
  kind ← byte_at rec 4
  flags ← byte_at rec 5
  sid ← rd_u32 rec 6
  tid ← rd_u16 rec 10
  ts ← rd_u64 rec 16
  payload ← slice rec hdr (length rec)
  done (record {
    layer_id = layer_id;
    kind = kind;
    flags = flags;
    sid = sid;
    tid = tid;
    ts = ts;
    payload = payload;
  })

module _ (partial : Bytes) where
  -- the last two tests of a header at `p`
  unfoldable pub bytes_ok : ℕ → Outcome Bool
  bytes_ok p = do
    kind ← byte_at partial (p + 4)
    flags ← byte_at partial (p + 5)
    done (leb kind max_kind && leb flags 1)

  -- `header_ok`
  unfoldable pub header_ok : ℕ → ℕ → Outcome Bool
  header_ok p total = if leb hdr total && leb total max_record then bytes_ok p else done false

  unfoldable pub plausible_at : ℕ → Outcome Bool
  plausible_at p =
      let inside : Outcome Bool = do
        t ← rd_u32 partial p
        if leb hdr t && leb t max_record && leb (p + t) (length partial)
            then bytes_ok p
            else done false
      in if ltb (length partial) (p + hdr) then done false else inside

  -- `while p + HDR <= len`; it goes on for one round for each byte at most.
  unfoldable pub find_plausible : ℕ → ℕ → Outcome Bool
  find_plausible zero p = stuck
  find_plausible (suc fuel) p =
      let round : Outcome Bool = do
        found ← plausible_at p
        let next = find_plausible fuel (p + 1)
        if found then done true else next
      in if leb (p + hdr) (length partial) then round else done false

  -- Each round takes a byte at least. `len - consumed` on `usize` panics below 0.
  unfoldable pub frames_loop : ℕ → ℕ → ℕ → Scan → Outcome (ℕ × Scan)
  frames_loop zero layer_id consumed st = stuck
  frames_loop (suc fuel) layer_id consumed st =
      let skip : Outcome (ℕ × Scan) = frames_loop fuel layer_id (consumed + 1) (count_corrupt st) in
      let round : Outcome (ℕ × Scan) = do
        total ← rd_u32 partial consumed
        ok ← header_ok consumed total
        let resync : Outcome (ℕ × Scan) = do
          next ← find_plausible (suc (length partial)) (consumed + 1)
          if next then skip else done (consumed, st)
        let whole : Outcome (ℕ × Scan) = do
          rec ← slice partial consumed (consumed + total)
          f ← frame_of layer_id rec
          frames_loop fuel layer_id (consumed + total) (deliver f st)
        if not ok then skip else if ltb (length partial) (consumed + total) then resync else whole
      in if ltb (length partial) consumed
        then panic
        else if ltb (length partial - consumed) hdr
        then done (consumed, st)
        else round

  -- The bytes that are kept for the next read, and the state.
  unfoldable pub scan_frames : ℕ → Scan → Outcome (Bytes × Scan)
  unfolding frames_loop
  scan_frames layer_id st = do
    r ← frames_loop (suc (length partial)) layer_id 0 st
    rest ← slice partial r.0 (length partial)
    done (rest, r.1)
